-- ===== src/Ui/Launch.antt =====
-- The constructor and the destructor of `PinentryUI` in src/ui/pinentry_ui.cpp, with what the system
-- answers and what pinentry sends as inputs.
use gravelbox.Base.{
  ℕ, Bytes, List, [], ◌∷◌, ◌++◌, Bool, if◌then◌else◌, none, some, Outcome, ok, throw, terminate,
}
use gravelbox.Utils.{Reply, check}
use gravelbox.Utils.Fd.{Fd, new, move, release, Files, CloseReply, after_scope, unwinding}
use gravelbox.Exec.{Exec, lift, ◌>>=◌, ◌>>◌}
use gravelbox.Tracer.Types.{WaitStatus, exited, wait_status}
use gravelbox.Ui.Pinentry.{Conn, open_conn, close_conn}

-- What the system answers to the constructor: the two ends of each pipe, the terminal, the pid of
-- pinentry; and the lines that pinentry will send.
pub record Startup : Type 0 where
  pub to_pinentry : Reply (ℕ × ℕ)
  pub from_pinentry : Reply (ℕ × ℕ)
  pub ttyname : Reply Bytes
  pub forked : Reply ℕ
  pub lines : List Bytes

-- `conn_`: the descriptors that its two devices have, and the dialogue; and what was closed.
pub record Pinentry : Type 0 where
  pub files : Files
  pub devices : List ℕ
  pub conn : Conn

module _ (close_reply : CloseReply) (unset : ℕ) where
  unfoldable pub on_files : {A : Type 0} → Exec Files A → Exec Pinentry A
  on_files m s = let (r, f) = m s.files in (r, record s { files = f })

  unfoldable pub on_conn : {A : Type 0} → Exec Conn A → Exec Pinentry A
  on_conn m s = let (r, c) = m s.conn in (r, record s { conn = c })

  -- The member `conn_` is destroyed: its devices close what they have, and what `close` answers is
  -- not looked at.
  unfoldable pub drop_devices : Pinentry → Pinentry
  drop_devices s = record s {
    files = record s.files { closed = s.devices ++ s.files.closed };
    devices = [];
  }

  -- The devices take over what is in two objects.
  unfoldable pub attach : Fd → Fd → Exec Pinentry (Unit {0})
  attach pipe_in pipe_out s = (
    ok tt,
    record s {
      devices = elim pipe_out.fd [
        | none ↦ elim pipe_in.fd [ none ↦ s.devices | some i ↦ i ∷ s.devices ]
        | some o ↦ o ∷ (elim pipe_in.fd [ none ↦ s.devices | some i ↦ i ∷ s.devices ])
      ];
    },
  )

  -- PinentryConn::open, whose two parameters are destroyed at its end.
  unfoldable pub open_pipes : Fd → Fd → Exec Pinentry (Unit {0})
  unfolding attach release on_conn on_files after_scope ◌>>=◌
  open_pipes pipe_in pipe_out s =
      let (r, s') = (attach pipe_in pipe_out >> on_conn (open_conn unset)) s in
      on_files (after_scope close_reply ((release pipe_in).1 ∷ (release pipe_out).1 ∷ []) r) s'

  -- The part behind `spawn`: two ends go to the connection, and the locals are destroyed.
  unfoldable pub connect : Fd → Fd → Fd → Fd → Exec Pinentry (Unit {0})
  unfolding move on_files after_scope open_pipes
  connect to_r to_w from_r from_w s =
      let (pipe_in, from_r') = move from_r in
      let (pipe_out, to_w') = move to_w in
      let (r, s') = open_pipes pipe_in pipe_out s in
      on_files (after_scope close_reply (from_w ∷ from_r' ∷ to_w' ∷ to_r ∷ []) r) s'

  -- The body of the constructor.
  unfoldable pub construct : Startup → Exec Pinentry (Unit {0})
  unfolding on_files unwinding check connect ◌>>=◌ lift
  construct l = do
    (a, b) ← lift (check l.to_pinentry)
    let to_r = new a
    let to_w = new b
    (c, d) ← on_files (unwinding close_reply (to_w ∷ to_r ∷ []) (check l.from_pinentry))
    let from_r = new c
    let from_w = new d
    on_files (unwinding close_reply (from_w ∷ from_r ∷ to_w ∷ to_r ∷ []) (check l.ttyname))
    on_files (unwinding close_reply (from_w ∷ from_r ∷ to_w ∷ to_r ∷ []) (check l.forked))
    connect to_r to_w from_r from_w

  -- An object whose constructor throws loses its members.
  unfoldable pub drop_on_throw : {A : Type 0} → Outcome A × Pinentry → Outcome A × Pinentry
  drop_on_throw (ok a, s) = (ok a, s)
  drop_on_throw (throw e, s) = (throw e, drop_devices s)
  drop_on_throw (terminate, s) = (terminate, s)

  -- PinentryUI(pinentry), in a process where `closed` was closed before.
  unfoldable pub new_pinentry : Startup → Files → Outcome (Unit {0}) × Pinentry
  unfolding construct drop_on_throw drop_devices
  new_pinentry l files = drop_on_throw (
      construct l
        (record { files = files; devices = []; conn = record { sent = []; incoming = l.lines } }))

  unfoldable pub joined : WaitStatus → Outcome (Unit {0})
  joined (exited c) = ok tt
  joined _ = terminate

  -- ~PinentryUI(), with whether the process is the one that made the object, and the answer of
  -- `waitpid`. An exception does not leave it.
  unfoldable pub quit : Bool → Reply ℕ → Exec Pinentry (Unit {0})
  unfolding on_conn check lift joined ◌>>=◌ drop_devices
  quit same_process waited s =
      let closing =
        on_conn (close_conn unset)
        >> (lift (check waited) >>= λ w. lift (joined (wait_status w))) in
      let (r, s') = closing s in
      if same_process
      then (elim r [
        | ok _ ↦ (ok tt, drop_devices s')
        | throw _ ↦ (terminate, s')
        | terminate ↦ (terminate, s')
      ])
      else (ok tt, drop_devices s)
