-- ===== src/Choices/Service/Sessions.antt =====
-- The chains of a session after they are put back.
use fictional_barnacle.Prelude.{
  String, ◌≡◌, refl, sym, inl, inr, false, List, [], str_eq, eq_iff, Option-cases,
}
use fictional_barnacle.Prelude.Dict.{lookup, lookup-insert}
use fictional_barnacle.Choices.Chain.{ConsequenceChain}
use fictional_barnacle.Choices.Service.{InMemoryConsequenceService, chains_of, put_chains}

pub chains_of-put_chains :
    (s : InMemoryConsequenceService) (session : String)
    (f : List ConsequenceChain → List ConsequenceChain)
    → f [] ≡ []
    → chains_of (put_chains s session (f (chains_of s session))) session ≡ f (chains_of s session)
unfolding chains_of put_chains
chains_of-put_chains s session f e = elim (Option-cases (lookup session s.chains)) [
  | inl absent ↦ rw (put_chains, absent, chains_of, absent) (sym e)
  | inr (old, present) ↦
      let own = lookup-insert session session (f (chains_of s session)) s.chains in
      rw (put_chains, present, chains_of, own, (eq_iff session session).1 refl, chains_of, present)
        refl
]

pub chains_of-put_chains_other :
    (s : InMemoryConsequenceService) (session other : String) (cs : List ConsequenceChain)
    → str_eq session other ≡ false
    → chains_of (put_chains s session cs) other ≡ chains_of s other
unfolding chains_of put_chains
chains_of-put_chains_other s session other cs h = elim (Option-cases (lookup session s.chains)) [
  | inl absent ↦ rw (put_chains, absent) refl
  | inr (old, present) ↦
      rw (put_chains, present, chains_of, lookup-insert session other cs s.chains, h) refl
]
