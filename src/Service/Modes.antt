-- ===== src/Service/Modes.antt =====
-- The configuration of main.go: what holds of it when main goes on to one of its modes.
use stateless_executor.Prelude.{
  ℕ, ◌≡◌, ◌≢◌, ◌∙◌, refl, ap, sym, Bool, List, [], ◌∷◌, Bool-cases, inl, inr,
}
use stateless_executor.Prelude.Errors.{ok, >>=-eq-ok, wrapping, wrapping-eq-ok}
use stateless_executor.Prelude.Text.{Text, codes, text_eq, text_eq→eq, text_eq_refl, split_byte}
use stateless_executor.Prelude.Parse.{parse_uint, decimal_digit}
use stateless_executor.Pool
use stateless_executor.Pool.{Pool}
use stateless_executor.Pool.Startup.{new-Started}
use mathlib.Core.Path.{subst}
use stateless_executor.Runner.{GuestSpec, parse_guest_specs, parse_entries, none_empty}
use stateless_executor.Service.{
  Mode, Config, Start, configure, mode_of, some_urls, split_env, genesis_from,
}

-- Which values of BLOCK_NUMBER and DUMP_DIR lead to a mode.
abbrev pub IsChosen : Text → Text → Mode → Type 0
IsChosen block_str dir Mode.live = (block_str ≡ []) × (dir ≡ [])
IsChosen block_str dir (Mode.run_one n) =
    (parse_uint decimal_digit 10 block_str ≡ ok n) × (dir ≡ [])
IsChosen block_str dir (Mode.dump_one n dir') =
    (parse_uint decimal_digit 10 block_str ≡ ok n) × (dir' ≡ dir) × (dir ≢ [])

mode_of-IsChosen :
    (block_str dir : Text) {mode : Mode}
    → mode_of block_str dir ≡ ok mode
    → IsChosen block_str dir mode
mode_of-IsChosen [] [] {mode} h =
    let same : Mode.live ≡ mode = cc in subst (IsChosen [] []) same (refl, refl)
mode_of-IsChosen [] (d ∷ dir) {mode} h = cc
mode_of-IsChosen (c ∷ block_str) dir {mode} h =
    let (n, w, q) =
      >>=-eq-ok (wrapping "BLOCK_NUMBER" (parse_uint decimal_digit 10 (c ∷ block_str))) _ h in
    let parsed = wrapping-eq-ok _ (parse_uint decimal_digit 10 (c ∷ block_str)) w in
    elim (Bool-cases (text_eq dir [])) [
      | inl blank ↦
          let same : Mode.run_one n ≡ mode = cc in
          subst (IsChosen (c ∷ block_str) dir) same (parsed, text_eq→eq dir [] blank)
      | inr full ↦
          let same : Mode.dump_one n dir ≡ mode = cc in
          subst (IsChosen (c ∷ block_str) dir) same
            (parsed, refl, λ e. cc (full, e, text_eq_refl dir))
    ]

new-nodes :
    (arrivals : ℕ → List Text) (probes : ℕ → Text → Bool) {p : Pool}
    → Pool.new arrivals probes ≡ ok p
    → p.nodes ≢ []
new-nodes arrivals probes {p} h =
    let s = new-Started arrivals probes h in
    λ e. s.found_some (sym (ap (λ (q : Pool). q.nodes) s.shape) ∙ e)

none_empty-nodes :
    (specs : List GuestSpec) {guests : List GuestSpec} → none_empty specs ≡ ok guests → guests ≢ []
none_empty-nodes [] h = cc
none_empty-nodes (x ∷ specs) h = λ e. cc

parse_guest_specs-some :
    (val : Text) {guests : List GuestSpec} → parse_guest_specs val ≡ ok guests → guests ≢ []
unfolding parse_guest_specs
parse_guest_specs-some val {guests} h =
    let (specs, _, h') = >>=-eq-ok (parse_entries (split_byte b',' val)) _ h in
    none_empty-nodes specs h'

-- If main gets past its checks, it has at least one guest and a pool of at least one node, and it
-- serves live heads where neither BLOCK_NUMBER nor DUMP_DIR is set, runs one block where only the
-- first is, and dumps that block to DUMP_DIR where both are.
pub configure-IsChosen :
    (s : Start) (env : Text → Text) {c : Config}
    → configure s env ≡ ok c
    → (c.guests ≢ [])
      × (c.pool.nodes ≢ [])
      × IsChosen (env (codes "BLOCK_NUMBER")) (env (codes "DUMP_DIR")) c.mode
unfolding configure
configure-IsChosen s env {c} h =
    let (urls, _, h1) = >>=-eq-ok (some_urls (split_env (env (codes "EL_RPC_URLS")))) _ h in
    let (genesis, _, h2) = >>=-eq-ok (genesis_from s (env (codes "GENESIS_FILE"))) _ h1 in
    let specs = parse_guest_specs (env (codes "GUEST_BINARIES")) in
    let (guests, q3, h3) = >>=-eq-ok (wrapping "GUEST_BINARIES" specs) _ h2 in
    let made = Pool.new (s.arrivals urls) s.probes in
    let (p, q4, h4) = >>=-eq-ok (wrapping "pool init" made) _ h3 in
    let mode' = mode_of (env (codes "BLOCK_NUMBER")) (env (codes "DUMP_DIR")) in
    let (mode, q5, h5) = >>=-eq-ok mode' _ h4 in
    let some_guests =
      parse_guest_specs-some (env (codes "GUEST_BINARIES")) (wrapping-eq-ok _ specs q3) in
    let some_nodes = new-nodes (s.arrivals urls) s.probes (wrapping-eq-ok _ made q4) in
    let chosen = mode_of-IsChosen (env (codes "BLOCK_NUMBER")) (env (codes "DUMP_DIR")) q5 in
    let guests' : guests ≡ c.guests = cc in
    let pool' : p ≡ c.pool = cc in
    let mode'' : mode ≡ c.mode = cc in
    (
      subst (λ (gs : List GuestSpec). gs ≢ []) guests' some_guests,
      subst (λ (q : Pool). q.nodes ≢ []) pool' some_nodes,
      subst (IsChosen (env (codes "BLOCK_NUMBER")) (env (codes "DUMP_DIR"))) mode'' chosen,
    )
