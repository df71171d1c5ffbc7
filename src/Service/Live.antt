-- ===== src/Service/Live.antt =====
-- The live loop of main.go over the ring buffer: which results the buffer holds after some heads, and
-- what each result says.
use stateless_executor.Prelude.{
  ℕ, ◌-◌, ◌≡◌, ◌↔◌, ◌∙◌, refl, ap, sym, true, List, [], ◌∷◌, ◌++◌, some, length, foldl, map, drop,
  arith,
}
use stateless_executor.Prelude.Errors.{Error, Result, ok, err, panic, ◌>>=◌}
use stateless_executor.Prelude.Text.{Text}
use stateless_executor.Prelude.Endian.{Bytes}
use stateless_executor.Fixture.Geth.{Geth}
use stateless_executor.Fixture.Fork.{GenesisChainConfig}
use stateless_executor.Store
use stateless_executor.Store.{RingBuffer, empty, add, all, capacity}
use stateless_executor.Store.History.{all-add}
use stateless_executor.Runner
use stateless_executor.Runner.{GuestSpec, Process}
use stateless_executor.Pipeline.Fetch.{EngineConfig, Fetched, fetch}
use stateless_executor.Service.{
  Processes, labelled, result_of, Head, add_results, after_fetch, live_step, live_loop,
}
use stateless_executor.Service.Exit.{Accepts}

foldl_append :
    (xs ys : List Store.Result) (buf : RingBuffer)
    → foldl add buf (xs ++ ys) ≡ foldl add (foldl add buf xs) ys
foldl_append [] ys buf = refl
foldl_append (x ∷ xs) ys buf = foldl_append xs ys (add buf x)

-- Adding the first results and then the rest is adding them all.
add_rest :
    (rs : List Store.Result) (rest : Result (List Store.Result)) (buf : RingBuffer)
    → (rest >>= λ xs. ok (foldl add (foldl add buf rs) xs))
      ≡ ((rest >>= λ xs. ok (rs ++ xs)) >>= λ xs. ok (foldl add buf xs))
add_rest rs (ok xs) buf = ap ok (sym (foldl_append rs xs buf))
add_rest rs (err x) buf = refl
add_rest rs panic buf = refl

last_results :
    (made : Result (List Store.Result))
    → ((made >>= λ rs. ok (foldl add empty rs)) >>= λ buf. ok (all buf))
      ≡ (made >>= λ rs. ok (drop (length rs - capacity) rs))
last_results (ok rs) = ap ok (all-add rs)
last_results (err x) = refl
last_results panic = refl

module _ (error_text : Error → Text) where
  -- Each result names the block, the guest and the node that served the witness, whether the guest
  -- returned an error or not, and it is valid exactly if the guest accepts the input.
  pub result_of-identified :
      (fetched : Fetched) (process : Processes) (input : Bytes) (n : ℕ) (spec : GuestSpec)
      → ((result_of error_text fetched process input n spec).block ≡ n)
        × ((result_of error_text fetched process input n spec).guest ≡ spec.name)
        × ((result_of error_text fetched process input n spec).witness_from ≡ fetched.el_node)
        × ((result_of error_text fetched process input n spec).tx_count ≡ fetched.meta.tx_count)
        × ((result_of error_text fetched process input n spec).gas_used ≡ fetched.meta.gas_used)
        × (((result_of error_text fetched process input n spec).valid ≡ true)
            ↔ Accepts process input spec)
  unfolding result_of labelled Runner.run
  result_of-identified fetched process input n spec = ground arith

  add_results-foldl :
      (fetched : Fetched) (process : Processes) (input : Bytes) (n : ℕ) (specs : List GuestSpec)
      (buf : RingBuffer)
      → add_results error_text fetched process input n specs buf
        ≡ foldl add buf (map (result_of error_text fetched process input n) specs)
  unfolding add_results
  add_results-foldl fetched process input n [] buf = refl
  add_results-foldl fetched process input n (spec ∷ specs) buf =
      add_results-foldl fetched process input n specs
        (add buf (result_of error_text fetched process input n spec))

  module _ {g : Geth} (e : EngineConfig) (genesis : GenesisChainConfig) where
    -- The results that a head adds: none where the fetch fails.
    abbrev pub results_of : Head g → Fetched → Result Bytes → Result (List Store.Result)
    results_of head fetched (ok input) =
        ok (map (result_of error_text fetched head.process input head.number) head.finished)
    results_of head fetched (err x) = ok []
    results_of head fetched panic = panic

    abbrev pub head_results : Head g → Result (List Store.Result)
    head_results head =
        let fetched = (fetch head.remote e (some genesis) head.pool head.number).0 in
        results_of head fetched fetched.input

    unfoldable pub all_results : List (Head g) → Result (List Store.Result)
    all_results [] = ok []
    all_results (head ∷ heads) = do
      rs ← head_results head
      rest ← all_results heads
      ok (rs ++ rest)

    after_fetch-foldl :
        (head : Head g) (fetched : Fetched) (buf : RingBuffer) (made : Result Bytes)
        → after_fetch error_text e genesis head fetched buf made
          ≡ (results_of head fetched made >>= λ rs. ok (foldl add buf rs))
    after_fetch-foldl head fetched buf (ok input) =
        ap ok (add_results-foldl fetched head.process input head.number head.finished buf)
    after_fetch-foldl head fetched buf (err x) = refl
    after_fetch-foldl head fetched buf panic = refl

    live_step-foldl :
        (head : Head g) (buf : RingBuffer)
        → live_step error_text e genesis buf head
          ≡ (head_results head >>= λ rs. ok (foldl add buf rs))
    unfolding live_step
    live_step-foldl head buf =
        let fetched = (fetch head.remote e (some genesis) head.pool head.number).0 in
        after_fetch-foldl head fetched buf fetched.input

    live-foldl :
        (heads : List (Head g)) (buf : RingBuffer)
        → live_loop error_text e genesis buf heads
          ≡ (all_results heads >>= λ rs. ok (foldl add buf rs))
    unfolding live_loop all_results
    live-foldl [] buf = refl
    live-foldl (head ∷ heads) buf =
        ap (λ (b : Result RingBuffer). b >>= λ buf'. live_loop error_text e genesis buf' heads)
          (live_step-foldl head buf)
        ∙ rounds (head_results head) (live-foldl heads)
      where
        rounds :
            (made : Result (List Store.Result))
            → ((b : RingBuffer)
                → live_loop error_text e genesis b heads
                  ≡ (all_results heads >>= λ rs. ok (foldl add b rs)))
            → ((made >>= λ rs. ok (foldl add buf rs)) >>= λ buf'.
                live_loop error_text e genesis buf' heads)
              ≡ ((made >>= λ rs. all_results heads >>= λ rest. ok (rs ++ rest)) >>= λ rs.
                  ok (foldl add buf rs))
        rounds (ok rs) later = later (foldl add buf rs) ∙ add_rest rs (all_results heads) buf
        rounds (err x) later = refl
        rounds panic later = refl

    -- Whatever heads arrive, and in whatever order their guests finish: unless a fetch panics, the
    -- buffer that /results serves holds the last 1000 results of the heads whose fetch succeeded,
    -- oldest first: none is lost before that, and none is there twice.
    pub all-live :
        (heads : List (Head g))
        → (live_loop error_text e genesis empty heads >>= λ buf. ok (all buf))
          ≡ (all_results heads >>= λ rs. ok (drop (length rs - capacity) rs))
    all-live heads =
        ap (λ (b : Result RingBuffer). b >>= λ buf. ok (all buf)) (live-foldl heads empty)
        ∙ last_results (all_results heads)
