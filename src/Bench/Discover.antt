-- ===== src/Bench/Discover.antt =====
-- bench/discover.go: which files of a tree become work, and the census of them. The tree is what
-- filepath.WalkDir visits, with what sniffing and stat find at each file.
pub mod Accounts
use stateless_executor.Prelude.{
  ℕ, zero, suc, ◌+◌, ◌-◌, Bool, true, false, not, ◌&&◌, List, [], ◌∷◌, ◌++◌, Option, none, some,
  map, take, drop, if◌then◌else◌, ltb, ◌==◌, length,
}
use stateless_executor.Prelude.Errors.{Error, Result, ok, err, panic, message, external}
use stateless_executor.Prelude.Text.{Text, codes, text_eq, has_prefix}
use stateless_executor.Prelude.Sort.{sort}
use stateless_executor.Prelude.Sort.Orders.{text_lt}
use stateless_executor.Fixture.Format.{Format}
use stateless_executor.Bench.Work.{FileJob}
use mathlib.Core.List.{reverse}

-- strings.HasSuffix(s, p)
unfoldable pub has_suffix : Text → Text → Bool
has_suffix s p = has_prefix (reverse s) (reverse p)

mutual
  -- A file has its name, its path, what SniffFormat returns for it and its size; a directory has
  -- its name, its path, the error of reading it and its entries; and an entry may be unreadable.
  pub data Entry : Type 0 where
    file : Text → Text → Result Format → ℕ → Entry
    dir : Text → Text → Option Error → Entries → Entry
    unreadable : Text → Error → Entry

  pub data Entries : Type 0 where
    done : Entries
    more : Entry → Entries → Entries

pub data SkipReason : Type 0 where
  failed : Error → SkipReason
  unrecognised : SkipReason

pub record SkippedFile : Type 0 where
  pub path : Text
  pub reason : SkipReason

-- The two slices that the walk appends to.
pub record Found : Type 0 where
  pub jobs : List FileJob
  pub skipped : List SkippedFile

abbrev pub skip_file : Found → Text → SkipReason → Found
skip_file f path reason = record f {
  skipped = f.skipped ++ (record { path = path; reason = reason } ∷ []);
}

abbrev pub add_job : Found → FileJob → Found
add_job f j = record f { jobs = f.jobs ++ (j ∷ []) }

abbrev pub is_hidden : Text → Bool
is_hidden name = has_prefix name (codes ".")

abbrev pub is_json : Text → Bool
is_json name = has_suffix name (codes ".json")

-- `suiteOf`, on the result of filepath.Rel.
unfoldable pub suite_of : Option Text → Text
suite_of none = codes "."
suite_of (some rel) = rel

abbrev pub nothing_found : Found
nothing_found = record { jobs = []; skipped = [] }

module _ (rel : Text → Option Text) where
  abbrev pub sniffed : Found → Text → ℕ → Result Format → Found
  sniffed f path size (ok Format.unknown) = skip_file f path SkipReason.unrecognised
  sniffed f path size (ok Format.corpus) =
      add_job f
        (record { path = path; kind = Format.corpus; suite = suite_of (rel path); bytes = size })
  sniffed f path size (ok Format.zkevm) =
      add_job f
        (record { path = path; kind = Format.zkevm; suite = suite_of (rel path); bytes = size })
  sniffed f path size (err e) = skip_file f path (SkipReason.failed e)
  sniffed f path size panic = f

  -- The callback of WalkDir on an entry, and the walk of what is below it.
  unfoldable mutual
    unfolding suite_of has_suffix

    pub walk : Found → Entry → Found
    walk f (file name path kind size) = if is_json name then sniffed f path size kind else f
    walk f (dir name path unread entries) = if is_hidden name then f else elim unread [
      | some e ↦ skip_file f path (SkipReason.failed e)
      | none ↦ walk_all f entries
    ]
    walk f (unreadable path e) = skip_file f path (SkipReason.failed e)

    pub walk_all : Found → Entries → Found
    walk_all f done = f
    walk_all f (more entry entries) = walk_all (walk f entry) entries

  -- `discover` on a directory. The root itself is never pruned.
  unfoldable pub discover_dir : Text → Option Error → Entries → Found
  unfolding walk sort
  discover_dir root (some e) entries = skip_file nothing_found root (SkipReason.failed e)
  discover_dir root none entries =
      let f = walk_all nothing_found entries in
      record f { jobs = sort (λ (a b : FileJob). text_lt a.path b.path) f.jobs }

-- `discover` on a single file.
unfoldable pub discover_file : Text → Result Format → ℕ → Result Found
discover_file root (ok Format.unknown) size =
    ok (record {
      jobs = [];
      skipped = record { path = root; reason = SkipReason.unrecognised } ∷ [];
    })
discover_file root (ok Format.corpus) size = ok (record {
  jobs = record { path = root; kind = Format.corpus; suite = codes "."; bytes = size } ∷ [];
  skipped = [];
})
discover_file root (ok Format.zkevm) size = ok (record {
  jobs = record { path = root; kind = Format.zkevm; suite = codes "."; bytes = size } ∷ [];
  skipped = [];
})
discover_file root (err e) size = err e
discover_file root panic size = panic

abbrev pub same_kind : Format → Format → Bool
same_kind Format.unknown Format.unknown = true
same_kind Format.corpus Format.corpus = true
same_kind Format.zkevm Format.zkevm = true
same_kind _ _ = false

unfoldable pub has_kind : List FileJob → Format → Bool
has_kind [] k = false
has_kind (j ∷ jobs) k = let rest = has_kind jobs k in if same_kind j.kind k then true else rest

unfoldable pub count_by_kind : Format → List FileJob → ℕ
count_by_kind k [] = 0
count_by_kind k (j ∷ jobs) =
    let rest = count_by_kind k jobs in if same_kind j.kind k then rest + 1 else rest

unfoldable pub total_bytes : List FileJob → ℕ
total_bytes [] = 0
total_bytes (j ∷ jobs) = j.bytes + total_bytes jobs

-- The bytes of the files of one kind, as printCensus adds them up.
unfoldable pub bytes_of_kind : Format → List FileJob → ℕ
bytes_of_kind k [] = 0
bytes_of_kind k (j ∷ jobs) =
    let rest = bytes_of_kind k jobs in if same_kind j.kind k then j.bytes + rest else rest

-- suites[name]
unfoldable pub suite_files : List FileJob → Text → ℕ
suite_files [] name = 0
suite_files (j ∷ jobs) name =
    let rest = suite_files jobs name in if text_eq j.suite name then rest + 1 else rest

abbrev pub max_suites_shown : ℕ
max_suites_shown = 40

-- Largest first, by name within a tie.
abbrev pub larger : List FileJob → Text → Text → Bool
larger jobs a b =
    if not (suite_files jobs a == suite_files jobs b)
    then ltb (suite_files jobs b) (suite_files jobs a)
    else text_lt a b

unfoldable pub sum_files : List FileJob → List Text → ℕ
unfolding suite_files
sum_files jobs [] = 0
sum_files jobs (s ∷ names) = suite_files jobs s + sum_files jobs names

pub record KindRow : Type 0 where
  pub kind : Format
  pub files : ℕ
  pub bytes : ℕ

abbrev pub kind_row : List FileJob → Format → List KindRow
kind_row jobs k =
    if count_by_kind k jobs == 0
    then []
    else record { kind = k; files = count_by_kind k jobs; bytes = bytes_of_kind k jobs } ∷ []

-- What printCensus prints: the rows by format, all files and bytes, the suites shown with their
-- numbers of files, and how many suites and files are not shown.
pub record Census : Type 0 where
  pub kinds : List KindRow
  pub files : ℕ
  pub bytes : ℕ
  pub suites : ℕ
  pub shown : List (ℕ × Text)
  pub hidden_suites : ℕ
  pub hidden_files : ℕ

-- `visited` lists the keys of the map of suites as the range loop visits them.
unfoldable pub print_census : List Text → List FileJob → Census
unfolding count_by_kind bytes_of_kind total_bytes sort sum_files suite_files
print_census visited jobs =
    let names = sort (larger jobs) visited in
    let shown = take max_suites_shown names in
    let rest = drop max_suites_shown names in
    record {
      kinds = kind_row jobs Format.corpus ++ kind_row jobs Format.zkevm;
      files = length jobs;
      bytes = total_bytes jobs;
      suites = length names;
      shown = map (λ (s : Text). (suite_files jobs s, s)) shown;
      hidden_suites = length rest;
      hidden_files = sum_files jobs rest;
    }
