-- ===== src/Choices/Service/Evaluate/Due.antt =====
-- Which entries an evaluation activates.
use mathlib.Core.List.{map-append}
use fictional_barnacle.Prelude.{
  ℕ, String, ◌≡◌, refl, ap, ◌∙◌, inl, inr, Bool, true, false, not, ◌&&◌, List, [], ◌∷◌, ◌++◌, map,
  str_eq, Bool-cases, if◌then◌else◌, filter,
}
use fictional_barnacle.Choices.Chain.{
  ConsequenceChain, ConsequenceEntry, active, is_hidden, is_pending, is_resolved, is_running,
}
use fictional_barnacle.Choices.Service.{InMemoryConsequenceService, chains_of}
use fictional_barnacle.Choices.Service.Evaluate.{
  Activation, evaluate, evaluate_chains, evaluate_entries, evaluate_entry, is_empty,
  should_activate,
}
use fictional_barnacle.Choices.Service.Sessions.{chains_of-put_chains, chains_of-put_chains_other}

-- An entry is due if it waits, its time has come, and it need not be revealed first.
abbrev pub is_due : ℕ → ConsequenceEntry → Bool
is_due turn e = is_pending e.status && should_activate turn e && not (is_hidden e.visibility)

-- The entries that an evaluation activates: the due ones of the chains that run.
abbrev pub due_entries : ℕ → List ConsequenceChain → List ConsequenceEntry
due_entries turn [] = []
due_entries turn (c ∷ cs) =
    let rest = due_entries turn cs in
    if is_running c then filter (is_due turn) c.entries ++ rest else rest

abbrev pub activation_of : ConsequenceEntry → Activation
activation_of e = record {
  entry_id = e.id;
  chain_id = e.chain_id;
  effect = e.effect;
  timescale = e.timescale;
}

-- The due entry of a list becomes active, the others stay.
abbrev pub made_active : ℕ → ConsequenceEntry → ConsequenceEntry
made_active turn e = if is_due turn e then record e { status = active } else e

evaluate_entries_lem :
    (turn : ℕ) (es : List ConsequenceEntry)
    → ((evaluate_entries turn es).changes ≡ map activation_of (filter (is_due turn) es))
      × ((evaluate_entries turn es).entries ≡ map (made_active turn) es)
unfolding evaluate_entries evaluate_entry
evaluate_entries_lem turn [] = (refl, refl)
evaluate_entries_lem turn (e ∷ es) =
    let (changes, entries) = evaluate_entries_lem turn es in
    elim (Bool-cases (is_pending e.status)) [
      | inl waits ↦ elim (Bool-cases (should_activate turn e)) [
        | inl comes ↦ elim (Bool-cases (is_hidden e.visibility)) [
          | inl unseen ↦ rw (waits, comes, unseen, changes, entries) (refl, refl)
          | inr seen ↦ rw (waits, comes, seen, changes, entries) (refl, refl)
        ]
        | inr early ↦ rw (waits, early, changes, entries) (refl, refl)
      ]
      | inr past ↦ rw (past, changes, entries) (refl, refl)
    ]

evaluate_chains-due_entries :
    (turn : ℕ) (cs : List ConsequenceChain)
    → (evaluate_chains turn cs).world_changes ≡ map activation_of (due_entries turn cs)
unfolding evaluate_chains
evaluate_chains-due_entries turn [] = refl
evaluate_chains-due_entries turn (c ∷ cs) =
    let rest = evaluate_chains-due_entries turn cs in
    let (changes, _) = evaluate_entries_lem turn c.entries in
    elim (Bool-cases (is_resolved c)) [
      | inl over ↦ rw over rest
      | inr running ↦ elim (Bool-cases c.is_dormant) [
        | inl asleep ↦ rw (running, asleep) rest
        | inr awake ↦
            rw
              (
                running,
                awake,
                changes,
                rest,
                map-append activation_of (filter (is_due turn) c.entries) (due_entries turn cs),
              )
              refl
      ]
    ]

-- A chain after an evaluation.
abbrev pub activate_chain : ℕ → ConsequenceChain → ConsequenceChain
activate_chain turn c =
    if is_running c
    then record c {
      entries = map (made_active turn) c.entries;
      last_active_turn =
          if is_empty (filter (is_due turn) c.entries) then c.last_active_turn else turn;
    }
    else c

is_empty-map : {A B : Type 0} (f : A → B) (xs : List A) → is_empty (map f xs) ≡ is_empty xs
is_empty-map f [] = refl
is_empty-map f (x ∷ xs) = refl

evaluate_chains-activate_chain :
    (turn : ℕ) (cs : List ConsequenceChain)
    → (evaluate_chains turn cs).chains ≡ map (activate_chain turn) cs
unfolding evaluate_chains
evaluate_chains-activate_chain turn [] = refl
evaluate_chains-activate_chain turn (c ∷ cs) =
    let rest = evaluate_chains-activate_chain turn cs in
    let (changes, entries) = evaluate_entries_lem turn c.entries in
    elim (Bool-cases (is_resolved c)) [
      | inl over ↦ rw (over, rest) refl
      | inr running ↦ elim (Bool-cases c.is_dormant) [
        | inl asleep ↦ rw (running, asleep, rest) refl
        | inr awake ↦
            rw
              (
                running,
                awake,
                changes,
                entries,
                rest,
                is_empty-map activation_of (filter (is_due turn) c.entries),
              )
              refl
      ]
    ]

-- An active entry is not due.
due_after_activate :
    (turn : ℕ) (es : List ConsequenceEntry) → filter (is_due turn) (map (made_active turn) es) ≡ []
due_after_activate turn [] = refl
due_after_activate turn (e ∷ es) =
    let rest = due_after_activate turn es in
    elim (Bool-cases (is_due turn e)) [
      | inl due ↦ rw (due, rest) refl
      | inr not_due ↦ rw (not_due, rest) (rw not_due refl)
    ]

none_due : {A : Type 0} (b : Bool) {xs : List A} → xs ≡ [] → (if b then xs ++ [] else []) ≡ []
none_due true e = rw e refl
none_due false e = refl

due_entries_after :
    (turn : ℕ) (cs : List ConsequenceChain) → due_entries turn (map (activate_chain turn) cs) ≡ []
due_entries_after turn [] = refl
due_entries_after turn (c ∷ cs) =
    let rest = due_entries_after turn cs in
    elim (Bool-cases (is_running c)) [
      | inl running ↦ rw (running, rest) (none_due _ (due_after_activate turn c.entries))
      | inr idle ↦ rw (idle, rest) (rw idle refl)
    ]

-- An evaluation of a session's chains activates exactly the entries of its running chains that
-- wait, are not hidden, and whose time has come by their timescale, reports each of them once and
-- in order, and changes nothing else but the turn of last activity of the chains in which it
-- activates something. Other sessions stay as they are.
pub evaluate_activates :
    (s : InMemoryConsequenceService) (session other : String) (turn : ℕ)
    → str_eq session other ≡ false
    → let (result, s') = evaluate s session turn in
      (result.world_changes ≡ map activation_of (due_entries turn (chains_of s session)))
      × (chains_of s' session ≡ map (activate_chain turn) (chains_of s session))
      × (chains_of s' other ≡ chains_of s other)
unfolding evaluate
evaluate_activates s session other turn h = (
  evaluate_chains-due_entries turn (chains_of s session),
  chains_of-put_chains s session (λ cs. (evaluate_chains turn cs).chains)
        (evaluate_chains-activate_chain turn [])
      ∙ evaluate_chains-activate_chain turn (chains_of s session),
  chains_of-put_chains_other s session other (evaluate_chains turn (chains_of s session)).chains h,
)

-- A second evaluation in the same turn activates nothing.
pub evaluate_again :
    (s : InMemoryConsequenceService) (session : String) (turn : ℕ)
    → (evaluate (evaluate s session turn).1 session turn).0.world_changes ≡ []
unfolding evaluate
evaluate_again s session turn =
    let s' = (evaluate s session turn).1 in
    let cs : chains_of s' session ≡ map (activate_chain turn) (chains_of s session) =
      chains_of-put_chains s session (λ cs. (evaluate_chains turn cs).chains)
        (evaluate_chains-activate_chain turn [])
      ∙ evaluate_chains-activate_chain turn (chains_of s session) in
    evaluate_chains-due_entries turn (chains_of s' session)
    ∙ ap (λ cs. map activation_of (due_entries turn cs)) cs
    ∙ ap (map activation_of) (due_entries_after turn (chains_of s session))
