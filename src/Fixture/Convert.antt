-- ===== src/Fixture/Convert.antt =====
-- fixture/encode.go: the conversions that go through go-ethereum, uint256 or encoding/json.
use stateless_executor.Prelude.{ℕ, List, [], Option, none, some, ◌||◌, map, if◌then◌else◌}
use stateless_executor.Prelude.Errors.{Result, ok, ◌>>=◌, wrapping}
use stateless_executor.Prelude.Text.{Text, codes, text_eq}
use stateless_executor.Prelude.Endian.{Bytes}
use stateless_executor.Prelude.Int.{ℤ, pos}
use stateless_executor.Fixture.Types.{FixtureSig, AccessTupleJson}
use stateless_executor.Fixture.Geth.{Json, Geth, AccessTuple}
use stateless_executor.Fixture.Hex.{hex_to_big_int, hex_to_big_int2, hex_to_uint64, low64}

unfoldable pub raw_json_to_big_int : Json → Bytes → Result ℤ
unfolding hex_to_big_int
raw_json_to_big_int j raw =
    if text_eq raw [] || text_eq raw (codes "null")
    then ok (pos 0)
    else elim (j.unmarshal_uint64 raw) [
      | ok n ↦ ok (pos n)
      | _ ↦ do s ← wrapping "rawJSONToBigInt" (j.unmarshal_string raw); hex_to_big_int s
    ]

unfoldable pub raw_json_to_uint64 : Json → Bytes → Result ℕ
unfolding raw_json_to_big_int
raw_json_to_uint64 j raw = do n ← raw_json_to_big_int j raw; ok (low64 n)

-- yParity, r and s. The errors of r and s are dropped, and each is 0 then.
unfoldable pub parse_sig : FixtureSig → Result (ℕ × ℤ × ℤ)
unfolding hex_to_uint64 hex_to_big_int2
parse_sig sig = do
  y_parity ← wrapping "yParity" (hex_to_uint64 sig.y_parity)
  ok (y_parity, hex_to_big_int2 sig.r, hex_to_big_int2 sig.s)

module _ (g : Geth) where
  unfoldable pub big_to_uint256 : ℤ → ℕ
  big_to_uint256 n = elim (g.from_big n) [ none ↦ 0 | some u ↦ u ]

  unfoldable pub hex_to_uint256 : Text → Result ℕ
  unfolding big_to_uint256 hex_to_big_int
  hex_to_uint256 s = do n ← hex_to_big_int s; ok (big_to_uint256 n)

  unfoldable pub parse_to_addr_ptr : Option Text → Option Bytes
  parse_to_addr_ptr none = none
  parse_to_addr_ptr (some s) =
      if text_eq s [] || text_eq s (codes "null") then none else some (g.hex_to_address s)

  abbrev pub access_tuple : AccessTupleJson → AccessTuple
  access_tuple t = record {
    address = g.hex_to_address t.address;
    storage_keys = map g.hex_to_hash t.storage_keys;
  }

  unfoldable pub decode_access_list : Json → Bytes → Result (List AccessTuple)
  decode_access_list j raw =
      if text_eq raw [] || text_eq raw (codes "null") || text_eq raw (codes "[]") then ok [] else do
        tuples ← wrapping "access_list" (j.unmarshal_access_tuples raw)
        ok (map access_tuple tuples)
