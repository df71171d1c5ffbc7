-- ===== src/Pool.antt =====
-- pool/pool.go: the EL nodes. The answers of the network are arguments: what a call returns at the
-- time that it is made.
pub mod Heads
pub mod Robin
pub mod Startup
use stateless_executor.Prelude.{
  ℕ, zero, suc, ◌+◌, ◌-◌, ◌%◌, ◌^◌, Bool, true, false, List, [], ◌∷◌, ◌++◌, Option, none, some,
  length, get_or, ltb, if◌then◌else◌,
}
use stateless_executor.Prelude.Errors.{Error, Result, ok, err, panic, wrap, message, ◌>>=◌}
use stateless_executor.Prelude.Text.{Text, codes, text_eq, trim_prefix}
use stateless_executor.Prelude.Parse.{parse_uint}
use stateless_executor.Prelude.Endian.{Bytes}
use stateless_executor.Fixture.Hex.{hex_digit, hex_prefix}

abbrev pub probe_retry_max : ℕ
probe_retry_max = 60

-- rpcResponse, with the message of its error.
pub record RpcResponse : Type 0 where
  pub result : Bytes
  pub error : Option Error

-- The fields of Pool that its methods read or write; `heads` is the channel's buffer.
pub record Pool : Type 0 where
  pub nodes : List Text
  pub robin : ℕ
  pub heads : List ℕ
  pub seen : ℕ

-- make(chan uint64, 32)
abbrev pub heads_capacity : ℕ
heads_capacity = 32

-- `call`, on the decoded answer to the request.
unfoldable pub call : Result RpcResponse → Result Bytes
call answer = do
  resp ← answer
  elim resp.error [ none ↦ ok resp.result | some e ↦ err (wrap "rpc" e) ]

-- `blockNumber`, on the answer to eth_blockNumber and the decoder of a JSON string.
unfoldable pub block_number : (Bytes → Result Text) → Result RpcResponse → Result ℕ
unfolding call
block_number unmarshal_string answer = do
  raw ← call answer
  hex_str ← unmarshal_string raw
  parse_uint hex_digit 16 (trim_prefix hex_str hex_prefix)

-- `probe`: the node has a block number and answers debug_executionWitness.
unfoldable pub probe : (Bytes → Result Text) → Result RpcResponse → Result RpcResponse → Bool
unfolding block_number
probe unmarshal_string number_answer witness_answer =
    elim (block_number unmarshal_string number_answer) [
      | ok num ↦ elim (call witness_answer) [ ok _ ↦ true | _ ↦ false ]
      | _ ↦ false
    ]

-- robin.Add(1) - 1 on uint64, and the node at it.
unfoldable pub next : Pool → Text × Pool
next p =
    let robin' = (p.robin + 1) % 2 ^ 64 in
    let idx = (robin' + 2 ^ 64 - 1) % 2 ^ 64 in
    elim p.nodes [
      | [] ↦ ([], p)
      | (n ∷ ns) ↦ (get_or (n ∷ ns) (idx % length (n ∷ ns)) [], record p { robin = robin' })
    ]

unfoldable pub pick : Pool → Text × Pool
unfolding next
pick p = next p

-- The select that sends a head, or drops it where the buffer is full.
unfoldable pub offer : ℕ → List ℕ → List ℕ
offer num heads = if ltb (length heads) heads_capacity then heads ++ (num ∷ []) else heads

-- What `poll` does with the number that a node returned.
unfoldable pub saw : Pool → ℕ → Pool
unfolding offer
saw p num = if ltb p.seen num then record p { seen = num; heads = offer num p.heads } else p

-- `poll`, where `answer` is what each node returns for its block number.
unfoldable pub poll : (Text → Result ℕ) → Pool → Pool
unfolding next saw
poll answer p =
    let (url, p') = next p in
    if text_eq url [] then p' else elim (answer url) [ ok num ↦ saw p' num | _ ↦ p' ]

-- The nodes that pass the probe of one attempt, in the order in which their goroutines finish.
unfoldable pub healthy : (Text → Bool) → List Text → List Text
healthy probes [] = []
healthy probes (u ∷ urls) = let rest = healthy probes urls in if probes u then u ∷ rest else rest

abbrev pub no_nodes : Error
no_nodes = message "no EL nodes support debug_executionWitness" (probe_retry_max ∷ [])

abbrev pub fresh : List Text → Pool
fresh nodes = record { nodes = nodes; robin = 0; heads = []; seen = 0 }

-- The attempts of `New` that are left. `arrivals k` lists the urls in the order in which the
-- goroutines of attempt k finish, and `probes k` is what each of them finds.
unfoldable pub attempts : (ℕ → List Text) → (ℕ → Text → Bool) → ℕ → ℕ → Result Pool
unfolding healthy
attempts arrivals probes attempt zero = err no_nodes
attempts arrivals probes attempt (suc left) = elim (healthy (probes attempt) (arrivals attempt)) [
  | [] ↦ attempts arrivals probes (attempt + 1) left
  | (n ∷ ns) ↦ ok (fresh (n ∷ ns))
]

unfoldable pub new : (ℕ → List Text) → (ℕ → Text → Bool) → Result Pool
unfolding attempts
new arrivals probes = attempts arrivals probes 1 probe_retry_max
