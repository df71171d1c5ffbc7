-- ===== src/Fixture/Ssz.antt =====
-- fixture/encode_ssz.go: the primitive SSZ writers and the encoders of each list and container
-- that do not depend on where a block came from. A buffer is the list of bytes written to it.
pub mod Decode
pub mod Schema
pub mod Frame
pub mod Lists
pub mod Withdrawals
pub mod Uint256
pub mod Sections
pub mod Requests
pub mod Containers
pub mod Request
pub mod Witness
pub mod Payload
use stateless_executor.Prelude.{
  ℕ, zero, suc, ◌+◌, ◌-◌, ◌*◌, ◌/◌, ◌%◌, ◌^◌, Bool, true, false, List, [], ◌∷◌, ◌++◌, Option, none,
  some, ◌||◌, map, if◌then◌else◌, ltb, leb, ◌==◌, length, set, replicate, drop, get_or,
}
use stateless_executor.Prelude.Errors.{Error, Result, ok, err, panic, message, ◌>>=◌}
use stateless_executor.Prelude.Endian.{Bytes, le_bytes, be_bytes}
use stateless_executor.Prelude.Int.{ℤ, pos, negsuc}
use stateless_executor.Fixture.Geth.{Geth, Withdrawal}
use mathlib.Core.List.{reverse}
use Prim.Native.Nat.{bit_or}

-- uint32(n)
abbrev pub u32 : ℕ → ℕ
u32 n = n % 2 ^ 32

-- The schema id's revision, and `schemaIDFor`.
abbrev pub stateless_input_schema_revision : ℕ
stateless_input_schema_revision = 1

-- uint16(fork)<<8 | 1, for a uint8 fork.
unfoldable pub schema_id_for : ℕ → ℕ
schema_id_for fork = bit_or (fork * 256) stateless_input_schema_revision

-- What writeU32LE appends.
abbrev pub u32_le : ℕ → Bytes
u32_le v = le_bytes 4 v

-- binary.Write(buf, binary.LittleEndian, uint64) appends.
abbrev pub u64_le : ℕ → Bytes
u64_le v = le_bytes 8 v

-- big.Int.Bytes, lowest byte first: `fuel` bytes at most.
unfoldable pub digits256 : ℕ → ℕ → Bytes
digits256 zero v = []
digits256 (suc fuel) v = elim (v == 0) [ true ↦ [] | false ↦ v % 256 ∷ digits256 fuel (v / 256) ]

-- big.Int.Bytes, highest byte first, no leading zeros.
unfoldable pub big_bytes : ℕ → Bytes
unfolding digits256
big_bytes v = reverse (digits256 v v)

-- for i, byt := range nb { b[len(nb)-1-i] = byt }, from index i on; an index out of range panics.
unfoldable pub reverse_into : ℕ → ℕ → Bytes → Bytes → Result Bytes
reverse_into n i [] b = ok b
reverse_into n i (byt ∷ nb) b = elim (ltb (n - 1 - i) (length b)) [
  | true ↦ reverse_into n (i + 1) nb (set b (n - 1 - i) byt)
  | false ↦ panic
]

unfoldable pub ssz_uint256 : ℤ → Result Bytes
unfolding big_bytes reverse_into
ssz_uint256 (negsuc n) = ok (replicate 32 0)
ssz_uint256 (pos n) =
    if ltb 0 n
    then reverse_into (length (big_bytes n)) 0 (big_bytes n) (replicate 32 0)
    else ok (replicate 32 0)

-- The offset table of encodeSszByteListList, from running offset `off` on.
unfoldable pub byte_list_offsets : ℕ → List Bytes → Bytes
byte_list_offsets off [] = []
byte_list_offsets off (item ∷ items) =
    u32_le off ++ byte_list_offsets (u32 (off + u32 (length item))) items

abbrev pub concat : List Bytes → Bytes
concat [] = []
concat (item ∷ items) = item ++ concat items

unfoldable pub encode_ssz_byte_list_list : List Bytes → Bytes
unfolding byte_list_offsets
encode_ssz_byte_list_list [] = []
encode_ssz_byte_list_list (item ∷ items) =
    byte_list_offsets (u32 (4 * length (item ∷ items))) (item ∷ items) ++ concat (item ∷ items)

abbrev pub withdrawal_bytes : Withdrawal → Bytes
withdrawal_bytes w = concat (u64_le w.index ∷ u64_le w.validator ∷ w.address ∷ u64_le w.amount ∷ [])

unfoldable pub encode_ssz_withdrawal_list : List Withdrawal → Bytes
encode_ssz_withdrawal_list [] = []
encode_ssz_withdrawal_list (w ∷ wds) = withdrawal_bytes w ++ encode_ssz_withdrawal_list wds

-- types.BlobTxType
abbrev pub blob_tx_type : ℕ
blob_tx_type = 3

unfoldable pub encode_ssz_versioned_hashes : (g : Geth) → List g.Tx → Bytes
encode_ssz_versioned_hashes g [] = []
encode_ssz_versioned_hashes g (tx ∷ txs) =
    let rest = encode_ssz_versioned_hashes g txs in
    if g.tx_type tx == blob_tx_type then concat (g.blob_hashes tx) ++ rest else rest

abbrev pub execution_request_types : ℕ
execution_request_types = 5

-- The loop that files each request under its type. `next` is last + 1.
unfoldable pub file_requests : ℕ → List Bytes → List Bytes → Result (List Bytes)
file_requests next lists [] = ok lists
file_requests next lists ([] ∷ rs) = err (message "execution request of bytes" (0 ∷ []))
file_requests next lists ((t ∷ []) ∷ rs) = err (message "execution request of bytes" (1 ∷ []))
file_requests next lists ((t ∷ d ∷ ds) ∷ rs) =
    let rest = file_requests (t + 1) (set lists t (d ∷ ds)) rs in
    if leb execution_request_types t || ltb t next
    then err (message "execution request type out of range or order" (t ∷ []))
    else rest

-- The writes of the request lists' offsets; `off` is an int, cut to 32 bits as it is written.
unfoldable pub list_offsets : ℕ → List Bytes → List Bytes
list_offsets off [] = []
list_offsets off (l ∷ ls) = u32_le (u32 off) ∷ list_offsets (off + length l) ls

unfoldable pub encode_ssz_execution_requests : List Bytes → Result Bytes
unfolding file_requests list_offsets
encode_ssz_execution_requests requests = do
  lists ← file_requests 0 (replicate execution_request_types []) requests
  ok (concat (list_offsets (4 * execution_request_types) lists ++ lists))

-- encodeStatelessInputContainer
unfoldable pub encode_stateless_input_container : Bytes → Bytes → ℕ → ℕ → Bytes
encode_stateless_input_container npr wit chain_id schema_id =
    let off_npr : ℕ = 16 in
    let off_witness = u32 (off_npr + u32 (length npr)) in
    concat (
      be_bytes 2 schema_id ∷ u32_le off_npr ∷ u32_le off_witness ∷ u64_le chain_id ∷ npr ∷ wit ∷ [])

-- The SszNewPayloadRequest container around its encoded sections, as both block paths build it.
unfoldable pub new_payload_request : Bytes → Bytes → Bytes → Bytes → Bytes
new_payload_request ep vh er root = concat (
    u32_le 44
    ∷ u32_le (u32 (44 + length ep))
    ∷ root
    ∷ u32_le (u32 (44 + length ep + length vh))
    ∷ ep
    ∷ vh
    ∷ er
    ∷ [])

-- encodeExecutionWitnessFromArrays: three lists behind a 12-byte fixed region.
unfoldable pub encode_execution_witness_from_arrays : List Bytes → List Bytes → List Bytes → Bytes
encode_execution_witness_from_arrays state codes headers =
    let state_ssz = encode_ssz_byte_list_list state in
    let codes_ssz = encode_ssz_byte_list_list codes in
    let headers_ssz = encode_ssz_byte_list_list headers in
    concat (
      u32_le 12
      ∷ u32_le (u32 (12 + length state_ssz))
      ∷ u32_le (u32 (12 + length state_ssz + length codes_ssz))
      ∷ state_ssz
      ∷ codes_ssz
      ∷ headers_ssz
      ∷ [])

-- ZkvmFrame: a u64 length, then the input zero-padded to a multiple of 8 bytes.
unfoldable pub zkvm_frame : Bytes → Bytes
zkvm_frame ssz =
    let size = (length ssz + 7) / 8 * 8 in
    concat (u64_le (length ssz) ∷ ssz ∷ replicate (size - length ssz) 0 ∷ [])
