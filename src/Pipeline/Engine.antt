-- ===== src/Pipeline/Engine.antt =====
-- fetchBALFromEngine of pipeline/pipeline.go: the request to the engine API, its token and the
-- outcome. The bytes and the error are returned side by side, as in the source: Fetch drops the
-- error and keeps the bytes.
use stateless_executor.Prelude.{
  ℕ, zero, suc, ◌+◌, ◌*◌, ◌/◌, ◌%◌, [], ◌∷◌, ◌++◌, Option, none, some, ltb, ◌==◌, if◌then◌else◌,
  get_or,
}
use stateless_executor.Prelude.Errors.{Error, ok, err, panic, wrap, message, external}
use stateless_executor.Prelude.Text.{Text, codes, text_eq, trim_prefix, trim_space}
use stateless_executor.Prelude.Endian.{Bytes}
use stateless_executor.Fixture.Geth.{Geth}
use stateless_executor.Fixture.Hex.{decode_string, even_digits, hex_prefix}
use stateless_executor.Emu.{encode_to_string}
use stateless_executor.Pipeline.Types.{Remote, PayloadBodies}

-- base64.RawURLEncoding: three bytes give four letters, and a rest of one or two gives two or three.
abbrev alphabet : Text
alphabet = codes "ABCDEFGHIJKLMNOPQRSTUVWXYZabcdefghijklmnopqrstuvwxyz0123456789-_"

abbrev letter : ℕ → ℕ
letter n = get_or alphabet (n % 64) 0

unfoldable pub base64_url : Bytes → Text
base64_url [] = []
base64_url (a ∷ []) = letter (a / 4) ∷ letter (a * 16) ∷ []
base64_url (a ∷ b ∷ []) = letter (a / 4) ∷ letter (a * 16 + b / 16) ∷ letter (b * 4) ∷ []
base64_url (a ∷ b ∷ c ∷ bs) =
    letter (a / 4) ∷ letter (a * 16 + b / 16) ∷ letter (b * 4 + c / 64) ∷ letter c ∷ base64_url bs

-- strconv.FormatUint(n, base): the digits of n, on fuel for their number.
abbrev pub digit_char : ℕ → ℕ
digit_char d = if ltb d 10 then d + b'0' else d + 87

unfoldable pub format_digits : ℕ → ℕ → ℕ → Text → Text
format_digits base zero n out = out
format_digits base (suc fuel) n out =
    let out' = digit_char (n % base) ∷ out in
    let rest = format_digits base fuel (n / base) out' in if n / base == 0 then out' else rest

-- No uint64 has more than 20 digits in a base from 10 on.
abbrev pub most_digits : ℕ
most_digits = 20

unfoldable pub format_uint : ℕ → ℕ → Text
unfolding format_digits
format_uint n base = format_digits base most_digits n []

abbrev quote : Text
quote = b'"' ∷ []

unfoldable pub signing_input : ℕ → Text
unfolding base64_url format_uint
signing_input iat =
    base64_url (codes "{\"alg\":\"HS256\",\"typ\":\"JWT\"}")
    ++ (codes "." ++ base64_url (codes "{\"iat\":" ++ (format_uint iat 10 ++ codes "}")))

-- What a call returns whose bytes are kept beside its error; nil bytes are none.
pub record Found : Type 0 where
  pub bytes : Option Bytes
  pub error : Option Error

abbrev nothing : Error → Found
nothing e = record { bytes = none; error = some e }

-- hexToBytes as the source returns it: what was decoded before the fault, and the fault.
abbrev pub kept_hex : Text → Found
kept_hex s =
    let (bs, fine) = decode_string (even_digits (trim_prefix s hex_prefix)) in
    record { bytes = some bs; error = if fine then none else some (external 1) }

-- The first list of the answer, if there is one.
unfoldable pub body_of : PayloadBodies → Found
unfolding decode_string
body_of bodies = elim bodies.error [
  | some e ↦ nothing (message "engine API" e)
  | none ↦ elim bodies.result [
    | [] ↦ record { bytes = none; error = none }
    | (s ∷ ss) ↦ if text_eq s [] then record { bytes = none; error = none } else kept_hex s
  ]
]

module _ {g : Geth} (r : Remote g) where
  unfoldable pub bearer : Bytes → Text
  unfolding signing_input base64_url
  bearer secret =
      let signed = signing_input r.unix_now in
      signed ++ (codes "." ++ base64_url (r.hmac_sha256 secret signed))

  -- From the decoded secret on.
  abbrev posted : Text → Bytes → Bytes → Found
  posted engine_url secret block_hash =
      elim (r.post engine_url (bearer secret) (hex_prefix ++ encode_to_string block_hash)) [
        | ok bodies ↦ body_of bodies
        | err e ↦ nothing e
        | panic ↦ nothing (external 0)
      ]

  unfoldable pub fetch_bal_from_engine : Text → Text → Bytes → Found
  unfolding bearer body_of encode_to_string decode_string
  fetch_bal_from_engine engine_url jwt_secret_file block_hash = elim (r.read_file jwt_secret_file) [
    | ok secret_hex ↦
        let (secret, fine) = decode_string (trim_space (trim_prefix secret_hex hex_prefix)) in
        if fine
        then posted engine_url secret block_hash
        else nothing (wrap "decoding JWT secret" (external 1))
    | err e ↦ nothing (wrap "reading JWT secret" e)
    | panic ↦ nothing (external 0)
  ]
