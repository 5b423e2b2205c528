-- ===== src/Targets/MultiThreaded/Whole.antt =====
-- In which order the threads of src/targets/multi-threaded.cpp write.
use mathlib.Core.List.{Perm, perm_middle}
use mathlib.Core.List.Perm
use gravelbox.Base.{
  ℕ, ◌+◌, ◌≤◌, ◌≡◌, refl, sym, List, [], ◌∷◌, ◌++◌, append_assoc, append-nil, Bool, true, false,
  some, inl, inr, Bool-cases, arith,
}
use gravelbox.Targets.MultiThreaded.{
  Job, Write, message, Place, opening, waiting, writing, finished, Worker, Shared, advance, turn,
}
use gravelbox.Targets.MultiThreaded.Turns.{
  holds, left, entered, holders, all_left, all_entered, holders-append, all_left-append,
  all_entered-append, all_left-idle, turn-Turned,
}

-- The messages of some jobs, each whole, one behind the other.
abbrev pub messages : List Job → List Write
messages [] = []
messages (j ∷ js) = message j ++ messages js

messages-append : (v w : List Job) → messages (v ++ w) ≡ messages v ++ messages w
messages-append [] w = refl
messages-append (j ∷ v) w =
    rw (messages-append v w) (sym (append_assoc (message j) (messages v) (messages w)))

abbrev pub as_number : Bool → ℕ
as_number true = 1
as_number false = 0

as_number-le : (b : Bool) → as_number b ≤ 1
as_number-le true = omega arith
as_number-le false = omega arith

-- With a number of threads that hold the mutex, what they have still to write, and the jobs of the
-- threads that have been given it: the mutex is locked where one thread holds it, and no more than
-- one does; and with what is still to be written, the writes are the messages of those jobs in some
-- order.
pub record Orderly (held : ℕ) (rest : List Write) (given : List Job) (m : Shared) : Type 0 where
  pub one : held ≡ as_number m.locked
  pub order : List Job
  pub all : Perm order given
  pub text : m.writes ++ rest ≡ messages order

abbrev pub AllOrderly : List Worker → Shared → Type 0
AllOrderly ws m = Orderly (holders ws) (all_left ws) (all_entered ws) m

-- A thread between others.
module _ (before behind : List Worker) where
  abbrev OrderlyAt : Job → Place → Shared → Type 0
  OrderlyAt j p m =
      Orderly (holders before + (holds p + holders behind))
        (all_left before ++ (left p ++ all_left behind))
        (all_entered before ++ (entered j p ++ all_entered behind)) m

  AllOrderly-OrderlyAt :
      (j : Job) (p : Place) (m : Shared)
      → AllOrderly (before ++ record { job = j; place = p } ∷ behind) m
      → OrderlyAt j p m
  AllOrderly-OrderlyAt j p m o =
      let ws = record { job = j; place = p } ∷ behind in
      rw (holders-append before ws, all_left-append before ws, all_entered-append before ws) at o

  OrderlyAt-AllOrderly :
      (j : Job) (p : Place) (m : Shared)
      → OrderlyAt j p m
      → AllOrderly (before ++ record { job = j; place = p } ∷ behind) m
  OrderlyAt-AllOrderly j p m o =
      let ws = record { job = j; place = p } ∷ behind in
      rw (holders-append before ws, all_left-append before ws, all_entered-append before ws) o

  lock-OrderlyAt :
      (j : Job) (m : Shared)
      → m.locked ≡ false
      → OrderlyAt j waiting m
      → OrderlyAt j (writing (message j)) (record m { locked = true })
  lock-OrderlyAt j m unlocked o =
      let none_held : holders before + (0 + holders behind) ≡ 0 = ground (arith, o.one) in
      let no_left = all_left-idle before (omega arith) in
      let no_left' = all_left-idle behind (omega arith) in
      let text : m.writes ++ [] ≡ messages o.order = rw (no_left, no_left') at o.text in
      record {
        one = omega arith;
        order = o.order ++ j ∷ [];
        all = Perm.trans (perm_middle o.order []) (
            Perm.trans (Perm.cons j (rw (append-nil o.order) o.all))
              (Perm.symm (perm_middle (all_entered before) (all_entered behind))));
        text =
            rw (no_left, no_left', messages-append o.order (j ∷ []), ← text, append-nil m.writes)
              refl;
      }

  write-OrderlyAt :
      (j : Job) (w : Write) (ws : List Write) (m : Shared)
      → OrderlyAt j (writing (w ∷ ws)) m
      → OrderlyAt j (writing ws) (record m { writes = m.writes ++ w ∷ [] })
  write-OrderlyAt j w ws m o =
      let no_left = all_left-idle before (omega (arith, o.one, as_number-le m.locked)) in
      let text : m.writes ++ w ∷ (ws ++ all_left behind) ≡ messages o.order =
        rw no_left at o.text in
      record {
        one = o.one;
        order = o.order;
        all = o.all;
        text = rw (no_left, append_assoc m.writes (w ∷ []) (ws ++ all_left behind)) text;
      }

  unlock-OrderlyAt :
      (j : Job) (m : Shared)
      → OrderlyAt j (writing []) m
      → OrderlyAt j finished (record m { locked = false })
  unlock-OrderlyAt j m o = record {
    one = omega (arith, o.one, as_number-le m.locked);
    order = o.order;
    all = o.all;
    text = o.text;
  }

  advance-OrderlyAt :
      (j : Job) (p p' : Place) (m m' : Shared)
      → advance j p m ≡ some (p', m')
      → OrderlyAt j p m
      → OrderlyAt j p' m'
  unfolding advance
  advance-OrderlyAt j opening p' m m' h o =
      let there : waiting ≡ p' = cc (h) in let same : m ≡ m' = cc (h) in rw (← there, ← same) o
  advance-OrderlyAt j waiting p' m m' h o = elim (Bool-cases m.locked) [
    | inl y ↦ absurd (ground arith)
    | inr n ↦
        let k : some (writing (message j), record m { locked = true }) ≡ some (p', m') =
          rw n at h in
        let there : writing (message j) ≡ p' = cc (k) in
        let same : record m { locked = true } ≡ m' = cc (k) in
        rw (← there, ← same) (lock-OrderlyAt j m n o)
  ]
  advance-OrderlyAt j (writing []) p' m m' h o =
      let there : finished ≡ p' = cc (h) in
      let same : record m { locked = false } ≡ m' = cc (h) in
      rw (← there, ← same) (unlock-OrderlyAt j m o)
  advance-OrderlyAt j (writing (w ∷ ws)) p' m m' h o =
      let there : writing ws ≡ p' = cc (h) in
      let same : record m { writes = m.writes ++ w ∷ [] } ≡ m' = cc (h) in
      rw (← there, ← same) (write-OrderlyAt j w ws m o)
  advance-OrderlyAt j finished p' m m' h o = absurd (cc (h))

-- A step of a thread.
pub turn-AllOrderly :
    (i : ℕ) (ws ws' : List Worker) (m m' : Shared)
    → turn i ws m ≡ some (ws', m')
    → AllOrderly ws m
    → AllOrderly ws' m'
turn-AllOrderly i ws ws' m m' h o =
    let t = turn-Turned i ws m ws' m' h in
    let here = AllOrderly-OrderlyAt t.before t.behind t.job t.here m (rw t.was at o) in
    rw t.is (
      OrderlyAt-AllOrderly t.before t.behind t.job t.there m'
        (advance-OrderlyAt t.before t.behind t.job t.here t.there m m' t.moved here))
