-- ===== src/Config/Rules.antt =====
-- Which action `get_action` of src/config/file_config.cpp picks.
use gravelbox.Base.{
  ◌≡◌, refl, ap, Bytes, List, [], ◌∷◌, ◌++◌, true, false, ◌⊎◌, inl, inr, All, Bool-cases, arith,
}
use gravelbox.Config.FileConfig.{
  Verdict, Libraries, ActionGroup, FileConfig, any_match, first_action, get_action,
}

module _ (lib : Libraries) where
  open lib use {Regex, regex_match}

  -- No pattern of the list matches the text.
  abbrev pub Unmatched : Bytes → List Regex → Type 0
  Unmatched s = All (λ r. regex_match s r ≡ false)

  -- A pattern of the list matches the text.
  pub record Matched (s : Bytes) (rs : List Regex) : Type 0 where
    pub before : List Regex
    pub pattern_ : Regex
    pub rest : List Regex
    pub splits : rs ≡ before ++ pattern_ ∷ rest
    pub matches : regex_match s pattern_ ≡ true

  any_match-Unmatched : (s : Bytes) (rs : List Regex) → any_match lib s rs ≡ false → Unmatched s rs
  unfolding any_match
  any_match-Unmatched s [] h = tt
  any_match-Unmatched s (r ∷ rs) h = ground (arith, any_match-Unmatched s rs)

  any_match-Matched : (s : Bytes) (rs : List Regex) → any_match lib s rs ≡ true → Matched s rs
  unfolding any_match
  any_match-Matched s [] h = cc
  any_match-Matched s (r ∷ rs) h = elim (Bool-cases (regex_match s r)) [
    | inl y ↦ record { before = []; pattern_ = r; rest = rs; splits = refl; matches = y }
    | inr n ↦
        let m = any_match-Matched s rs (rw n at h) in
        record {
          before = r ∷ m.before;
          pattern_ = m.pattern_;
          rest = m.rest;
          splits = ap (λ l. r ∷ l) m.splits;
          matches = m.matches;
        }
  ]

  -- The group that decides: a pattern of it matches, and none of an earlier group does.
  pub record FirstMatch (s : Bytes) (groups : List (ActionGroup lib)) (a : Verdict) : Type 0 where
    pub earlier : List (ActionGroup lib)
    pub group : ActionGroup lib
    pub later : List (ActionGroup lib)
    pub splits : groups ≡ earlier ++ group ∷ later
    pub shadowed : All (λ g. Unmatched s g.patterns) earlier
    pub matched : Matched s group.patterns
    pub action_is : a ≡ group.action

  first_action_cases :
      (s : Bytes) (groups : List (ActionGroup lib)) (default : Verdict)
      → FirstMatch s groups (first_action lib s groups default)
        ⊎ (All (λ g. Unmatched s g.patterns) groups × (first_action lib s groups default ≡ default))
  unfolding first_action
  first_action_cases s [] default = inr (tt, refl)
  first_action_cases s (g ∷ gs) default = elim (Bool-cases (any_match lib s g.patterns)) [
    | inl y ↦ inl (record {
      earlier = [];
      group = g;
      later = gs;
      splits = refl;
      shadowed = tt;
      matched = any_match-Matched s g.patterns y;
      action_is = rw y;
    })
    | inr n ↦ elim (first_action_cases s gs default) [
      | inl m ↦ inl (record {
        earlier = g ∷ m.earlier;
        group = m.group;
        later = m.later;
        splits = ap (λ l. g ∷ l) m.splits;
        shadowed = (any_match-Unmatched s g.patterns n, m.shadowed);
        matched = m.matched;
        action_is = simp n m.action_is;
      })
      | inr (none_match, e) ↦ inr ((any_match-Unmatched s g.patterns n, none_match), simp n e)
    ]
  ]

  -- For every configuration and text: the action is that of the first group with a pattern that
  -- matches, or, if no pattern of any group matches, the default action.
  pub get_action_cases :
      (c : FileConfig lib) (s : Bytes)
      → FirstMatch s c.action_groups (get_action lib c s)
        ⊎ (All (λ g. Unmatched s g.patterns) c.action_groups
            × (get_action lib c s ≡ c.action_default))
  unfolding get_action
  get_action_cases c s = first_action_cases s c.action_groups c.action_default
