-- ===== src/Lib.antt =====
-- stateless-executor takes blocks of an execution-layer network, or fixture files, turns each into the
-- binary input of a stateless guest program, runs the guest, natively or in a zkVM emulator, and
-- records whether the guest accepted the block.
--
-- The parts, with the files of the repository that they model:
--
--   Fixture   package fixture. Types: the structs of fixture/fixture.go. Hex, Convert, Tx and Rebuild:
--             fixture/encode.go, from hex text and JSON fields to go-ethereum values and the block
--             header. Ssz and Payload: fixture/encode_ssz.go, the SSZ containers of a fixture. Live:
--             fixture/encode_ssz_live.go, the same containers for a block of the network. Fork: the
--             fork schedules of fixture/encode_ssz.go and fixture/genesis.go. Binary:
--             fixture/encode_binary.go. Zkevm: the blocks of the zkevm tests, of fixture/fixture.go and
--             fixture/encode.go. Format: fixture/format.go. Load: the loading of fixture files, of
--             fixture/fixture.go.
--   Store     store/store.go, the ring buffer of results.
--   Pool      pool/pool.go, the nodes, their round robin and the channel of new heads.
--   Runner    runner/runner.go, the guest list and what one guest run means.
--   Emu       emu/emu.go, what one emulator run means and how its cost report is read.
--   Pipeline  pipeline/pipeline.go. Types: its structs and what it uses of other packages. Engine and Bal:
--             the two sources of the block access list. Fetch: the steps of one fetch, from the node that
--             the Pool picks to the encoder of Fixture.Live.
--   Service   main.go: the configuration, one-block runs, dumps, and the live loop that hands the heads of
--             the Pool to Pipeline, its input to Runner, and the results to Store.
--   Bench     bench/units.go, the rules that judge a run and the counts of a block's transactions. Work: the
--             expansion of files into units. Run: bench/run.go. Rows and Report: the tally, the order,
--             the statistics, the CSV records and the report's data, of bench/main.go. Discover:
--             bench/discover.go.
--   ZkevmRunner  cmd/zkevm-runner/main.go, from the work items to the data of the report.
--   ZesuConvert  cmd/zesu-convert/main.go.
--   Prelude   what they share: Boolean tests, lists, Go errors as values, Go strings as lists of bytes,
--             strconv.ParseUint, byte orders, and the stable sort behind package sort.
--   Examples  concrete values, and the theorems at them.
--
-- A function of the source keeps its name in this library's spelling: encodeSszByteListList is
-- encode_ssz_byte_list_list. A Go function that returns (T, error) returns Result T here, which is ok,
-- err or panic; a pointer that may be nil is an Option; bytes.Buffer is the list of the writes, joined
-- by concat. Machine integers are natural numbers with their wrap-around written out: u32 for the
-- offsets of SSZ, % 2 ^ 64 for uint64. A *big.Int is an ℤ.
--
-- Parameters, since their code lies outside the repository: Geth collects what is used of go-ethereum
-- and uint256, with the sizes of hashes and addresses as its only laws, and Json the decoders of
-- encoding/json. What the network, a process or a file answers is an argument of the function that
-- reads it: Remote is the node and the engine API as Fetch uses them, with BalPackage for the access
-- lists of go-ethereum, Disk reads fixture files, Files writes dumps, Start is what main finds when it
-- starts, and Emulators, EmuRunner and Processes give how a process ends. SliceStable is
-- sort.SliceStable where the comparison need not be an order, in sortResults, with its documentation
-- as the hypothesis IsStable; the sorts by one key are the insertion sort of Prelude.Sort. The order
-- in which goroutines finish is an argument too, in New, in the rounds of the live loop and in runAll;
-- Go's visit of a map is a list of its keys. A loop that appends under a lock is one step for each
-- goroutine.
--
-- Loops are structural recursion. digits256, the digits of a big.Int, runs on fuel equal to the number
-- itself, which is at least its number of digits. strconv.FormatUint runs on fuel for 20 digits, and no
-- uint64 has more in a base from 10 on. New makes 60 attempts, as in the source.
--
-- Readers such as read_input, read_requests and decode_byte_list_list are no code of the repository:
-- they describe what a guest finds at the offsets that the comments of fixture/encode_ssz.go document.
--
-- Not modelled: the flags, the HTML templates with toJS, and printing and logging, which compute nothing
-- that is read back; the HTTP server, signals, timeouts and metrics of the service; starting a process and
-- its temporary files; collectJSON, a walk that the benchmark's discovery has in a richer form; and the
-- semaphores, which bound how many workers run but not what they compute.
pub mod Prelude
pub mod Fixture
pub mod Store
pub mod Pool
pub mod Runner
pub mod Emu
pub mod Examples
pub mod Bench
pub mod Pipeline
pub mod Service
pub mod ZkevmRunner
pub mod ZesuConvert
