-- ===== src/ZesuConvert.antt =====
-- cmd/zesu-convert/main.go behind its flags: the exit code, and what was written to which place.
use stateless_executor.Prelude.{
  ℕ, ◌≡◌, refl, Bool, true, false, List, [], ◌∷◌, Option, none, some, if◌then◌else◌, arith,
}
use stateless_executor.Prelude.Errors.{Error, Result, ok, err, panic, ◌>>=◌}
use stateless_executor.Prelude.Text.{Text}
use stateless_executor.Prelude.Endian.{Bytes}
use stateless_executor.Fixture.Geth.{Geth, Json}
use stateless_executor.Fixture.Types.{FixtureFile}
use stateless_executor.Fixture.Load.{Disk, load_file}
use stateless_executor.Fixture.Ssz.{zkvm_frame}
use stateless_executor.Fixture.Payload.{zesu_input_ssz_plain, zesu_input_ssz}
use stateless_executor.Service.{panic_code}

pub data Place : Type 0 where
  standard : Place
  file : Text → Place

-- os.Create, and the write to the place that was opened.
pub record Outputs : Type 0 where
  pub create : Text → Option Error
  pub write : Place → Bytes → Option Error

abbrev pub Exit : Type 0
Exit = ℕ × Option (Place × Bytes)

abbrev pub written : Outputs → Place → Bytes → Exit
written outputs place input = elim (outputs.write place input) [
  | some e ↦ (1, none)
  | none ↦ (0, some (place, input))
]

-- From the encoded input on: the second argument names the file.
unfoldable pub put : Outputs → List Text → Bytes → Exit
put outputs [] input = written outputs Place.standard input
put outputs (path ∷ args) input = elim (outputs.create path) [
  | some e ↦ (1, none)
  | none ↦ written outputs (Place.file path) input
]

abbrev pub put_result : Outputs → List Text → Result Bytes → Exit
put_result outputs args (ok input) = put outputs args input
put_result outputs args (err e) = (1, none)
put_result outputs args panic = (panic_code, none)

module _ (g : Geth) (j : Json) (d : Disk) (outputs : Outputs) where
  unfoldable pub encoded_file : Bool → FixtureFile → Result Bytes
  unfolding zesu_input_ssz zesu_input_ssz_plain
  encoded_file zkvm_input f =
      if zkvm_input then zesu_input_ssz g j f else zesu_input_ssz_plain g j f

  unfoldable pub convert : Bool → List Text → Exit
  unfolding load_file encoded_file put
  convert zkvm_input [] = (1, none)
  convert zkvm_input (path ∷ args) =
      put_result outputs args (load_file d path >>= encoded_file zkvm_input)

  put-zero :
      (args : List Text) (input : Bytes)
      → (put outputs args input).0 ≡ 0
      → (place : Place) × ((put outputs args input).1 ≡ some (place, input))
  unfolding put
  put-zero [] input h = (Place.standard, ground arith)
  put-zero (path ∷ args) input h = (Place.file path, ground arith)

  put_result-zero :
      (args : List Text) (made : Result Bytes)
      → (put_result outputs args made).0 ≡ 0
      → (input : Bytes) × (place : Place) × (made ≡ ok input)
        × ((put_result outputs args made).1 ≡ some (place, input))
  put_result-zero args (ok input) h =
      let (place, same) = put-zero args input h in (input, place, refl, same)
  put_result-zero args (err e) h = absurd (omega (arith, h))
  put_result-zero args panic h = absurd (omega (arith, h))

  -- A conversion that exits with 0 has loaded the file that is named first and written its encoding,
  -- and nothing else.
  pub convert-zero :
      (zkvm_input : Bool) (path : Text) (args : List Text)
      → (convert zkvm_input (path ∷ args)).0 ≡ 0
      → (input : Bytes) × (place : Place) × ((load_file d path >>= encoded_file zkvm_input)
          ≡ ok input)
        × ((convert zkvm_input (path ∷ args)).1 ≡ some (place, input))
  unfolding convert
  convert-zero zkvm_input path args h =
      put_result-zero args (load_file d path >>= encoded_file zkvm_input) h

  -- With --zkvm-input the encoding is the frame of what is written without it.
  pub encoded_file-zkvm_frame :
      (f : FixtureFile)
      → encoded_file true f ≡ (encoded_file false f >>= λ input. ok (zkvm_frame input))
  unfolding encoded_file zesu_input_ssz
  encoded_file-zkvm_frame f = refl
