-- ===== src/Utils/FdOwner.antt =====
-- Which descriptors the objects of `Utils::Fd` in src/utils.h close.
use gravelbox.Base.{ℕ, ◌≡◌, false, List, [], ◌∷◌, none, some, ok, arith}
use gravelbox.Utils.{done}
use gravelbox.Utils.Fd.{Fd, move, assign, release, Files, CloseReply, destroy, destroy_all}

-- The descriptor that an object has, if any, in front of others.
abbrev pub held_by : Fd → List ℕ → List ℕ
held_by f l = elim f.fd [ none ↦ l | some n ↦ n ∷ l ]

module _ (close_reply : CloseReply) (closes : (n : ℕ) → close_reply n ≡ done tt) where
  -- Where `close` succeeds: an object that is destroyed closes what it has.
  pub destroy-closed :
      (f : Fd) (s : Files)
      → destroy close_reply f s ≡ (ok tt, record s { closed = held_by f s.closed })
  unfolding destroy
  destroy-closed f s = grind (arith, closes)

  -- Where `close` succeeds: after a move from `f`, the two objects together close what `f` had, once;
  -- after a release, the object closes nothing; but after a move assignment of `g` to another object
  -- `f`, the two close only what `g` had, so the descriptor that `f` had is never closed.
  pub destroy_all-moved :
      (f g : Fd) (s : Files)
      → (destroy_all close_reply ((move f).0 ∷ (move f).1 ∷ []) s
          ≡ (ok tt, record s { closed = held_by f s.closed }))
        × (destroy_all close_reply ((release f).1 ∷ []) s ≡ (ok tt, s))
        × (destroy_all close_reply ((assign false f g).0 ∷ (assign false f g).1 ∷ []) s
            ≡ (ok tt, record s { closed = held_by g s.closed }))
  unfolding destroy_all move release assign
  destroy_all-moved f g s = grind (arith, destroy-closed)
