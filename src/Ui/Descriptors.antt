-- ===== src/Ui/Descriptors.antt =====
-- Who has the ends of the pipes once the constructor of `PinentryUI` in src/ui/pinentry_ui.cpp is done.
use gravelbox.Base.{
  ℕ, ◌+◌, ◌≡◌, ◌≢◌, refl, Bytes, List, [], ◌∷◌, ◌++◌, ◌==◌, if◌then◌else◌, drop, Outcome, ok, throw,
  terminate, arith, codes,
}
use gravelbox.Utils.{Reply, done, errno, check}
use gravelbox.Utils.Fd.{
  new, move, release, Files, CloseReply, destroy_all, after_scope, unwinding, keep_outcome,
}
use gravelbox.Utils.FdOwner.{destroy-closed}
use gravelbox.Ui.Pinentry.{
  Conn, recv_lines, recv, send, check_ok, expect_ok, throw_error, command, open_conn,
}
use gravelbox.Ui.Launch.{
  Startup, Pinentry, on_files, on_conn, drop_devices, attach, open_pipes, connect, construct,
  drop_on_throw, new_pinentry,
}

abbrev pub count : ℕ → List ℕ → ℕ
count n [] = 0
count n (x ∷ xs) = (if x == n then 1 else 0) + count n xs

pub count-append : (n : ℕ) (xs ys : List ℕ) → count n (xs ++ ys) ≡ count n xs + count n ys
count-append n [] ys = omega arith
count-append n (x ∷ xs) ys = ground (arith, count-append n xs ys)

-- The descriptors that the two calls of `pipe` give; the second call is made only if the first succeeds.
abbrev pub ends_of : Reply (ℕ × ℕ) → List ℕ
ends_of (done (a, b)) = a ∷ b ∷ []
ends_of (errno n) = []

abbrev pub made : Startup → List ℕ
made l = elim l.to_pinentry [ done p ↦ ends_of (done p) ++ ends_of l.from_pinentry | errno n ↦ [] ]

-- What the connection has: the ends that are its own if the constructor returns, and nothing if it
-- throws; it does not end the process.
abbrev pub HoldsEnds : Startup → Outcome (Unit {0}) → List ℕ → Type 0
HoldsEnds l (ok _) devices =
    (a b c d : ℕ) × (l.to_pinentry ≡ done (a, b))
    × (l.from_pinentry ≡ done (c, d))
    × (devices ≡ b ∷ c ∷ [])
HoldsEnds l (throw e) devices = devices ≡ []
HoldsEnds l terminate devices = ⊥

recv_lines-ne-terminate :
    (unset : ℕ) (text : Bytes) (ls : List Bytes) → (recv_lines unset text ls).0 ≢ terminate
unfolding recv_lines
recv_lines-ne-terminate unset text [] = λ h. cc
recv_lines-ne-terminate unset text (line ∷ rest) = λ h. ground (
  arith,
  recv_lines-ne-terminate unset text rest,
  recv_lines-ne-terminate unset (drop 2 line) rest,
)

expect_ok-ne-terminate : (unset : ℕ) (c : Conn) → (expect_ok unset c).0 ≢ terminate
unfolding expect_ok check_ok throw_error recv
expect_ok-ne-terminate unset c h = ground (arith, recv_lines-ne-terminate unset [] c.incoming)

open_conn-ne-terminate : (unset : ℕ) (c : Conn) → (open_conn unset c).0 ≢ terminate
unfolding open_conn command send
open_conn-ne-terminate unset c h =
    let c' = (expect_ok unset c).1 in
    ground (
      arith,
      expect_ok-ne-terminate unset c,
      expect_ok-ne-terminate unset (record c' { sent = codes "SETTITLE GravelBox" ∷ c'.sent }),
    )

module _ (close_reply : CloseReply) (closes : (n : ℕ) → close_reply n ≡ done tt) (unset : ℕ) where
  connect-new :
      (a b c d : ℕ) (files : Files) (conn : Conn)
      → connect close_reply unset
          (new a)
          (new b)
          (new c)
          (new d)
          (record { files = files; devices = []; conn = conn })
        ≡ (
          (open_conn unset conn).0,
          record {
            files = record { closed = a ∷ d ∷ files.closed };
            devices = b ∷ c ∷ [];
            conn = (open_conn unset conn).1;
          },
        )
  unfolding connect open_pipes attach on_conn on_files after_scope destroy_all keep_outcome move
      release
  connect-new a b c d files conn = grind (arith, destroy-closed)

  -- The constructor returned or threw in the state `s`, with `pipes` made.
  abbrev Settles : Startup → Files → ℕ → Outcome (Unit {0}) × Pinentry → Type 0
  Settles l files n (r, s) =
      HoldsEnds l r s.devices
      × (count n s.files.closed + count n s.devices ≡ count n (made l) + count n files.closed)

  opened-Settles :
      (l : Startup) (files : Files) (n a b c d : ℕ) (r : Outcome (Unit {0})) (conn : Conn)
      → l.to_pinentry ≡ done (a, b)
      → l.from_pinentry ≡ done (c, d)
      → r ≢ terminate
      → Settles l files n (
          drop_on_throw close_reply unset (
            r,
            record {
              files = record { closed = a ∷ d ∷ files.closed };
              devices = b ∷ c ∷ [];
              conn = conn;
            },
          ))
  unfolding drop_on_throw drop_devices
  opened-Settles l files n a b c d (ok _) conn h k t =
      ((a, b, c, d, h, k, refl), rw (h, k) (omega arith))
  opened-Settles l files n a b c d (throw e) conn h k t = (refl, rw (h, k) (omega arith))
  opened-Settles l files n a b c d terminate conn h k t = absurd (t refl)

  construct-Settles :
      (to from : Reply (ℕ × ℕ)) (tty : Reply Bytes) (forked : Reply ℕ) (lines : List Bytes)
      (files : Files) (n : ℕ)
      → let l : Startup = record {
        to_pinentry = to;
        from_pinentry = from;
        ttyname = tty;
        forked = forked;
        lines = lines;
      } in
        Settles l files n (new_pinentry close_reply unset l files)
  unfolding new_pinentry construct drop_on_throw drop_devices unwinding on_files after_scope
      destroy_all keep_outcome check
  construct-Settles (errno e) from tty forked lines files n = (refl, omega arith)
  construct-Settles (done (a, b)) (errno e) tty forked lines files n = grind (arith, destroy-closed)
  construct-Settles (done (a, b)) (done (c, d)) (errno e) forked lines files n =
      grind (arith, destroy-closed)
  construct-Settles (done (a, b)) (done (c, d)) (done t) (errno e) lines files n =
      grind (arith, destroy-closed)
  construct-Settles (done (a, b)) (done (c, d)) (done t) (done p) lines files n =
      let conn : Conn = record { sent = []; incoming = lines } in
      rw (connect-new a b c d files conn) (
        opened-Settles
          (record {
            to_pinentry = done (a, b);
            from_pinentry = done (c, d);
            ttyname = done t;
            forked = done p;
            lines = lines;
          })
          files n a b c d (open_conn unset conn).0 (open_conn unset conn).1 refl refl
          (open_conn-ne-terminate unset conn))

  -- Where `close` succeeds: however the constructor ends, each descriptor that it made was either
  -- closed, once, or is held by the connection; if it returns, the connection holds the end to write
  -- to pinentry and the end to read from it, and if it throws, nothing.
  pub new_pinentry-devices :
      (l : Startup) (files : Files) (n : ℕ)
      → let (r, s) = new_pinentry close_reply unset l files in
        HoldsEnds l r s.devices
        × (count n s.files.closed + count n s.devices ≡ count n (made l) + count n files.closed)
  new_pinentry-devices l files n =
      construct-Settles l.to_pinentry l.from_pinentry l.ttyname l.forked l.lines files n
