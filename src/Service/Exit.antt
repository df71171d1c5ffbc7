-- ===== src/Service/Exit.antt =====
-- The exit codes of main.go: what runBlock and dumpBlock return.
use stateless_executor.Prelude.{
  ℕ, ◌≤◌, ◌≡◌, ◌↔◌, ◌⊎◌, ◌∙◌, refl, ap, sym, List, [], ◌∷◌, Option, none, some, length, get_or, All,
  arith, inl, inr,
}
use stateless_executor.Prelude.Errors.{Error, Result, ok, err, panic}
use stateless_executor.Prelude.Text.{Text}
use stateless_executor.Prelude.Endian.{Bytes}
use stateless_executor.Fixture.Geth.{Geth}
use stateless_executor.Fixture.Fork.{GenesisChainConfig}
use stateless_executor.Fixture.Live.{Block}
use stateless_executor.Fixture.Ssz.{zkvm_frame}
use stateless_executor.Pool.{Pool, pick}
use stateless_executor.Runner
use stateless_executor.Runner.{GuestSpec, Process}
use stateless_executor.Pipeline.Types.{Remote, BlockMeta}
use stateless_executor.Pipeline.Fetch.{
  EngineConfig, fetch, fetch_block, hex_num, bal_of, bal_error, with_bal,
}
use stateless_executor.Pipeline.Success.{fetch-IsFetched}
use stateless_executor.Pipeline.Committed.{HasBal, bal_error-none}
use stateless_executor.Service.{
  Processes, guests_code, code_after, run_code, run_block, Files, dump_block, dump_fetched, dump_to,
  dump_path,
}
use stateless_executor.Prelude.Sort.{All-perm}
use mathlib.Core.List.{Permᴰ}
use mathlib.Core.List.Permᴰ

-- The guest's process accepts the input: no error, an output of full length, and its verdict byte.
abbrev pub Accepts : Processes → Bytes → GuestSpec → Type 0
Accepts process input spec =
    ((process spec input).exit ≡ none)
    × (43 ≤ length (process spec input).stdout)
    × (get_or (process spec input).stdout 32 0 ≡ 1)

-- One guest sets the exit code to 1 or leaves it.
code_after-run :
    (spec : GuestSpec) (process : Process) (n code : ℕ)
    → ((code_after code (Runner.run spec process n).error (Runner.run spec process n).result.valid
          ≡ code)
        × (process.exit ≡ none)
        × (43 ≤ length process.stdout)
        × (get_or process.stdout 32 0 ≡ 1))
      ⊎ ((code_after code (Runner.run spec process n).error (Runner.run spec process n).result.valid
            ≡ 1)
          × ¬ (
              (process.exit ≡ none)
              × (43 ≤ length process.stdout)
              × (get_or process.stdout 32 0 ≡ 1)))
unfolding Runner.run
code_after-run spec process n code = ground arith

module _ (process : Processes) (input : Bytes) (n : ℕ) where
  guests_code-failed : (specs : List GuestSpec) → guests_code process input n 1 specs ≡ 1
  unfolding guests_code
  guests_code-failed [] = refl
  guests_code-failed (spec ∷ specs) = elim (code_after-run spec (process spec input) n 1) [
    | inl (e, _, _, _) ↦ rw e (guests_code-failed specs)
    | inr (e, _) ↦ rw e (guests_code-failed specs)
  ]

  guests_code-zero :
      (specs : List GuestSpec)
      → (guests_code process input n 0 specs ≡ 0) ↔ All (Accepts process input) specs
  unfolding guests_code
  guests_code-zero [] = (λ _. tt, λ _. refl)
  guests_code-zero (spec ∷ specs) = elim (code_after-run spec (process spec input) n 0) [
    | inl (e, exits, long, verdict) ↦
        let (to, back) = guests_code-zero specs in
        let same = ap (λ (code : ℕ). guests_code process input n code specs) e in
        (λ h. ((exits, long, verdict), to (sym same ∙ h)), λ (_, hs). rw e (back hs))
    | inr (e, refuses) ↦
        let failed = guests_code-failed specs in
        (λ h. absurd (omega (arith, failed, rw e at h)), λ (accepts, _). absurd (refuses accepts))
  ]

module _ {g : Geth} (r : Remote g) (e : EngineConfig) (genesis : GenesisChainConfig) where
  run_code-zero :
      (process : Processes) (guests finished : List GuestSpec) (n : ℕ) (fetched : Result Bytes)
      → Permᴰ finished guests
      → (run_code r e genesis process finished n fetched ≡ 0)
        ↔ ((input : Bytes) × (fetched ≡ ok input) × All (Accepts process input) guests)
  run_code-zero process guests finished n (err x) order =
      (λ h. absurd (omega (arith, h)), λ (input, q, _). cc)
  run_code-zero process guests finished n panic order =
      (λ h. absurd (omega (arith, h)), λ (input, q, _). cc)
  run_code-zero process guests finished n (ok bs) order =
      let (to, back) = guests_code-zero process bs n finished in
      (
        λ h. (bs, refl, All-perm (Accepts process bs) order (to h)),
        λ (input, q, all).
            let same : bs ≡ input = cc in
            back (All-perm (Accepts process bs) (Permᴰ.symm order) (rw same all)),
      )

  -- Whatever the order in which the guests finish, the exit code of a one-block run is 0 exactly if
  -- the fetch returns an input and each of the configured guests accepts it: its process ends without
  -- an error and writes at least 43 bytes, of which byte 32 is 1.
  pub run_block-zero :
      (p : Pool) (process : Processes) (guests finished : List GuestSpec) (n : ℕ)
      → Permᴰ finished guests
      → (run_block r e genesis p process finished n ≡ 0) ↔ (
          (input : Bytes) × ((fetch r e (some genesis) p n).0.input ≡ ok input)
          × All (Accepts process input) guests)
  unfolding run_block
  run_block-zero p process guests finished n order =
      run_code-zero process guests finished n (fetch r e (some genesis) p n).0.input order

  dump_to-zero :
      (files : Files) (dir : Text) (n : ℕ) (input : Bytes)
      → (dump_to r e genesis files dir n input).0 ≡ 0
      → ((dump_to r e genesis files dir n input).1 ≡ some (dump_path files dir n, zkvm_frame input))
        × (files.make_dir dir ≡ none)
        × (files.write_file (dump_path files dir n) (zkvm_frame input) ≡ none)
  dump_to-zero files dir n input h = ground arith

  dump_fetched-zero :
      (files : Files) (dir : Text) (n : ℕ) (fetched : Result Bytes) (bal_err : Option Error)
      → (dump_fetched r e genesis files dir n fetched bal_err).0 ≡ 0
      → (input : Bytes) × (fetched ≡ ok input)
        × (bal_err ≡ none)
        × ((dump_fetched r e genesis files dir n fetched bal_err).1
            ≡ some (dump_path files dir n, zkvm_frame input))
  dump_fetched-zero files dir n (ok input) none h =
      (input, refl, refl, (dump_to-zero files dir n input h).0)
  dump_fetched-zero files dir n (ok input) (some x) h = absurd (omega (arith, h))
  dump_fetched-zero files dir n (err x) b h = absurd (omega (arith, h))
  dump_fetched-zero files dir n panic b h = absurd (omega (arith, h))

  -- If a dump exits with 0, it has written the framed input of the fetch under the block's number,
  -- and a block whose header commits to an access list has been given one that decodes and has the
  -- committed hash.
  pub dump_block-committed :
      (p : Pool) (files : Files) (dir : Text) (n : ℕ)
      → (dump_block r e genesis p files dir n).0 ≡ 0
      → (input : Bytes) × (block : Block g) × (bal_bytes : Bytes) × ((fetch r e
            (some genesis)
            p
            n).0.input
          ≡ ok input)
        × (fetch_block r (pick p).0 (hex_num n) ≡ ok block)
        × ((dump_block r e genesis p files dir n).1
            ≡ some (dump_path files dir n, zkvm_frame input))
        × (bal_of r e (pick p).0 (hex_num n) block ≡ ok bal_bytes)
        × HasBal r block bal_bytes
  unfolding dump_block with_bal
  dump_block-committed p files dir n h =
      let fetched = (fetch r e (some genesis) p n).0 in
      let (input, made, clean, written) =
        dump_fetched-zero files dir n fetched.input fetched.meta.bal_err h in
      let f = fetch-IsFetched r e (some genesis) p n made in
      let kept : bal_error r f.bal_bytes f.block ≡ none =
        sym (ap (λ (m : BlockMeta). m.bal_err) f.meta_is) ∙ clean in
      (
        input,
        f.block,
        f.bal_bytes,
        made,
        f.block_answered,
        written,
        f.bal_found,
        (bal_error-none r f.bal_bytes f.block).0 kept,
      )
