-- ===== src/Pool/Startup.antt =====
-- New of pool/pool.go: which nodes a pool starts with, and when it gives up.
use stateless_executor.Prelude.{
  ℕ, zero, suc, ◌+◌, ◌<◌, ◌≡◌, ◌≢◌, refl, sym, ap, Bool, true, List, [], ◌∷◌, arith, All,
  Bool-cases, inl, inr,
}
use mathlib.Core.Path.{subst}
use stateless_executor.Prelude.Errors.{ok, err}
use stateless_executor.Prelude.Text.{Text}
use stateless_executor.Pool.{Pool, fresh, healthy, no_nodes, attempts, new}

healthy-All :
    (probes : Text → Bool) (urls : List Text) → All (λ u. probes u ≡ true) (healthy probes urls)
unfolding healthy
healthy-All probes [] = tt
healthy-All probes (u ∷ urls) = elim (Bool-cases (probes u)) [
  | inl good ↦ rw good (good, healthy-All probes urls)
  | inr bad ↦ rw bad (healthy-All probes urls)
]

module _ (arrivals : ℕ → List Text) (probes : ℕ → Text → Bool) where
  -- The nodes that pass in an attempt.
  abbrev pub found : ℕ → List Text
  found k = healthy (probes k) (arrivals k)

  -- No node passes in the attempts from `attempt` on, `n` of them.
  abbrev pub IsSilent : ℕ → ℕ → Type 0
  IsSilent attempt zero = Unit
  IsSilent attempt (suc n) = (found attempt ≡ []) × IsSilent (attempt + 1) n

  -- A start that succeeds in attempt `attempt + k`.
  pub record Started (attempt left : ℕ) (p : Pool) : Type 0 where
    pub waited : ℕ
    pub waited_less : waited < left
    pub silent : IsSilent attempt waited
    pub found_some : found (attempt + waited) ≢ []
    pub all_pass : All (λ u. probes (attempt + waited) u ≡ true) p.nodes
    pub shape : p ≡ fresh (found (attempt + waited))

  Started-now :
      (attempt left : ℕ) (n : Text) (ns : List Text)
      → found attempt ≡ n ∷ ns
      → Started attempt (suc left) (fresh (n ∷ ns))
  Started-now attempt left n ns e =
      let at : attempt + 0 ≡ attempt = omega arith in
      record {
        waited = 0;
        waited_less = omega arith;
        silent = tt;
        found_some = rw at (λ none_found. cc);
        all_pass =
            subst (λ (k : ℕ). All (λ u. probes k u ≡ true) (n ∷ ns)) (sym at)
              (rw e at (healthy-All (probes attempt) (arrivals attempt)));
        shape = rw at (ap fresh (sym e));
      }

  Started-later :
      (attempt left : ℕ) {p : Pool}
      → found attempt ≡ []
      → Started (attempt + 1) left p
      → Started attempt (suc left) p
  Started-later attempt left e s =
      let at : attempt + suc s.waited ≡ attempt + 1 + s.waited = omega arith in
      record {
        waited = suc s.waited;
        waited_less = omega (arith, s.waited_less);
        silent = (e, s.silent);
        found_some = rw at s.found_some;
        all_pass = rw at s.all_pass;
        shape = rw at s.shape;
      }

  Started-step :
      (attempt left : ℕ) (nodes : List Text) {p : Pool}
      → found attempt ≡ nodes
      → (attempts arrivals probes (attempt + 1) left ≡ ok p → Started (attempt + 1) left p)
      → elim nodes [
        | [] ↦ attempts arrivals probes (attempt + 1) left
        | (n ∷ ns) ↦ ok (fresh (n ∷ ns))
      ]
        ≡ ok p
      → Started attempt (suc left) p
  Started-step attempt left [] e later made = Started-later attempt left e (later made)
  Started-step attempt left (n ∷ ns) {p} e later made =
      let same : fresh (n ∷ ns) ≡ p = cc made in rw (← same) (Started-now attempt left n ns e)

  attempts-Started :
      (attempt left : ℕ) {p : Pool}
      → attempts arrivals probes attempt left ≡ ok p
      → Started attempt left p
  unfolding attempts
  attempts-Started attempt zero e = cc
  attempts-Started attempt (suc left) e =
      Started-step attempt left (found attempt) refl (attempts-Started (attempt + 1) left) e

  attempts-IsSilent :
      (attempt left : ℕ)
      → IsSilent attempt left
      → attempts arrivals probes attempt left ≡ err no_nodes
  unfolding attempts
  attempts-IsSilent attempt zero s = refl
  attempts-IsSilent attempt (suc left) (e, s) =
      rw (attempts, e) (attempts-IsSilent (attempt + 1) left s)

  pub new-Started : {p : Pool} → new arrivals probes ≡ ok p → Started 1 60 p
  unfolding new
  new-Started e = attempts-Started 1 60 e

  -- If no node passes in any of the 60 attempts, New fails.
  pub new-IsSilent : IsSilent 1 60 → new arrivals probes ≡ err no_nodes
  unfolding new
  new-IsSilent s = attempts-IsSilent 1 60 s
