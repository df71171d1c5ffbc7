-- ===== src/Bench/Discover/Accounts.antt =====
-- What bench/discover.go finds in a tree, and what its census says of that.
use stateless_executor.Prelude.{
  ℕ, suc, ◌+◌, ◌≡◌, ◌≢◌, ◌∙◌, refl, ap, Bool, List, [], ◌∷◌, ◌++◌, Option, none, some, append-nil,
  append_assoc, map, take, drop, length, length-append, length-map, All, arith, if◌then◌else◌,
  take-append-drop, Bool-cases, inl, inr,
}
use stateless_executor.Prelude.Errors.{Result, ok, err, panic}
use stateless_executor.Prelude.Text.{Text}
use stateless_executor.Prelude.Sort.{
  All-perm, length-perm, map-perm, perm-append, append-perm, snoc-perm, map-append, sort, sort-perm,
  IsSorted, IsOrder, sort-IsSorted,
}
use stateless_executor.Prelude.Sort.Orders.{text_lt, text_lt-IsOrder}
use stateless_executor.Fixture.Format.{Format}
use stateless_executor.Bench.Work.{FileJob}
use stateless_executor.Bench.Discover.{
  Entry, Entries, file, dir, unreadable, done, more, Found, SkipReason, SkippedFile, skip_file,
  add_job, nothing_found, is_json, is_hidden, sniffed, walk, walk_all, discover_dir, count_by_kind,
  bytes_of_kind, total_bytes, same_kind, larger, max_suites_shown, suite_files, sum_files,
  print_census,
}
use mathlib.Core.List.{Permᴰ}
use mathlib.Core.List.Permᴰ

-- What a walk has to account for, each with the format that makes it a job, or none if it is to be
-- skipped: every .json file outside hidden directories, and whatever there cannot be read.
abbrev pub sniff_seen : Text → Result Format → List (Text × Option Format)
sniff_seen path (ok Format.unknown) = (path, none) ∷ []
sniff_seen path (ok Format.corpus) = (path, some Format.corpus) ∷ []
sniff_seen path (ok Format.zkevm) = (path, some Format.zkevm) ∷ []
sniff_seen path (err e) = (path, none) ∷ []
sniff_seen path panic = []

unfoldable mutual
  pub seen : Entry → List (Text × Option Format)
  seen (file name path kind size) = if is_json name then sniff_seen path kind else []
  seen (dir name path (some e) entries) = if is_hidden name then [] else (path, none) ∷ []
  seen (dir name path none entries) =
      let below = seen_all entries in if is_hidden name then [] else below
  seen (unreadable path e) = (path, none) ∷ []

  pub seen_all : Entries → List (Text × Option Format)
  seen_all done = []
  seen_all (more entry entries) = seen entry ++ seen_all entries

-- What was found, in the same form.
abbrev pub job_seen : FileJob → Text × Option Format
job_seen j = (j.path, some j.kind)

abbrev pub skip_seen : SkippedFile → Text × Option Format
skip_seen s = (s.path, none)

abbrev pub found_seen : Found → List (Text × Option Format)
found_seen f = map job_seen f.jobs ++ map skip_seen f.skipped

abbrev pub IsKnown : FileJob → Type 0
IsKnown j = j.kind ≢ Format.unknown

-- From one state of the walk to another that has these more, all jobs of a known format.
abbrev Adds : List (Text × Option Format) → Found → Found → Type 0
Adds xs f f' =
    Permᴰ (found_seen f ++ xs) (found_seen f') × (All IsKnown f.jobs → All IsKnown f'.jobs)

Adds-none : (f : Found) → Adds [] f f
Adds-none f = (rw (append-nil (found_seen f)) (Permᴰ.refl (found_seen f)), λ h. h)

Adds-trans :
    (xs ys : List (Text × Option Format)) (f f' f'' : Found)
    → Adds xs f f'
    → Adds ys f' f''
    → Adds (xs ++ ys) f f''
Adds-trans xs ys f f' f'' (h, known) (k, known') = (
  rw (← append_assoc (found_seen f) xs ys) (Permᴰ.trans (perm-append ys h) k),
  λ x. known' (known x),
)

All-snoc :
    (js : List FileJob) (j : FileJob) → All IsKnown js → IsKnown j → All IsKnown (js ++ (j ∷ []))
All-snoc [] j h k = (k, tt)
All-snoc (x ∷ js) j (h, hs) k = (h, All-snoc js j hs k)

skip_file-Adds :
    (f : Found) (path : Text) (reason : SkipReason)
    → Adds ((path, none) ∷ []) f (skip_file f path reason)
skip_file-Adds f path reason = (
  rw
      (
        map-append skip_seen f.skipped (record { path = path; reason = reason } ∷ []),
        append_assoc (map job_seen f.jobs) (map skip_seen f.skipped) ((path, none) ∷ []),
      )
      (Permᴰ.refl _),
  λ h. h,
)

add_job-Adds : (f : Found) (j : FileJob) → IsKnown j → Adds (job_seen j ∷ []) f (add_job f j)
add_job-Adds f j known = (
  rw
      (
        map-append job_seen f.jobs (j ∷ []),
        append_assoc (map job_seen f.jobs) (map skip_seen f.skipped) (job_seen j ∷ []),
        append_assoc (map job_seen f.jobs) (job_seen j ∷ []) (map skip_seen f.skipped),
      )
      (append-perm (map job_seen f.jobs) (snoc-perm (job_seen j) (map skip_seen f.skipped))),
  λ h. All-snoc f.jobs j h known,
)

module _ (rel : Text → Option Text) where
  sniffed-Adds :
      (f : Found) (path : Text) (size : ℕ) (kind : Result Format)
      → Adds (sniff_seen path kind) f (sniffed rel f path size kind)
  sniffed-Adds f path size (ok Format.unknown) = skip_file-Adds f path SkipReason.unrecognised
  sniffed-Adds f path size (ok Format.corpus) = add_job-Adds f _ (λ q. cc)
  sniffed-Adds f path size (ok Format.zkevm) = add_job-Adds f _ (λ q. cc)
  sniffed-Adds f path size (err e) = skip_file-Adds f path (SkipReason.failed e)
  sniffed-Adds f path size panic = Adds-none f

  mutual
    unfolding walk seen

    walk-Adds : (entry : Entry) (f : Found) → Adds (seen entry) f (walk rel f entry)
    walk-Adds (file name path kind size) f = elim (Bool-cases (is_json name)) [
      | inr other ↦ rw other (Adds-none f)
      | inl json ↦ rw json (sniffed-Adds f path size kind)
    ]
    walk-Adds (dir name path none entries) f = elim (Bool-cases (is_hidden name)) [
      | inl hidden ↦ rw hidden (Adds-none f)
      | inr plain ↦ rw plain (walk_all-Adds entries f)
    ]
    walk-Adds (dir name path (some e) entries) f = elim (Bool-cases (is_hidden name)) [
      | inl hidden ↦ rw hidden (Adds-none f)
      | inr plain ↦ rw plain (skip_file-Adds f path (SkipReason.failed e))
    ]
    walk-Adds (unreadable path e) f = skip_file-Adds f path (SkipReason.failed e)

    walk_all-Adds :
        (entries : Entries) (f : Found) → Adds (seen_all entries) f (walk_all rel f entries)
    walk_all-Adds done f = Adds-none f
    walk_all-Adds (more entry entries) f =
        Adds-trans (seen entry) (seen_all entries) f (walk rel f entry)
          (walk_all rel (walk rel f entry) entries) (walk-Adds entry f)
          (walk_all-Adds entries (walk rel f entry))

  -- In a directory that can be read: every .json file outside hidden directories whose format is
  -- known is a job of that format, every other such file and every entry that cannot be read is a
  -- skip, each as often as it is there and under its own path, and nothing else is found, a file
  -- whose sniffing panics aside. The jobs are sorted by path, and all of them are of a known format.
  pub discover_dir-accounts :
      (root : Text) (entries : Entries)
      → Permᴰ (seen_all entries) (found_seen (discover_dir rel root none entries))
        × IsSorted
            (λ (a b : FileJob). text_lt a.path b.path)
            (discover_dir rel root none entries).jobs
        × All IsKnown (discover_dir rel root none entries).jobs
  unfolding discover_dir
  discover_dir-accounts root entries =
      let f = walk_all rel nothing_found entries in
      let less : FileJob → FileJob → Bool = λ a b. text_lt a.path b.path in
      let o : IsOrder less = record {
        asym = λ a b. text_lt-IsOrder.asym a.path b.path;
        trans = λ a b c. text_lt-IsOrder.trans a.path b.path c.path;
      } in
      let (count, known) = walk_all-Adds entries nothing_found in
      (
        Permᴰ.trans count
            (perm-append (map skip_seen f.skipped) (map-perm job_seen (sort-perm less f.jobs))),
        sort-IsSorted less o f.jobs,
        All-perm IsKnown (sort-perm less f.jobs) (known tt),
      )

sum_files-append :
    (jobs : List FileJob) (xs ys : List Text)
    → sum_files jobs (xs ++ ys) ≡ sum_files jobs xs + sum_files jobs ys
unfolding sum_files
sum_files-append jobs [] ys = omega arith
sum_files-append jobs (x ∷ xs) ys = omega (arith, sum_files-append jobs xs ys)

sum_files-perm :
    (jobs : List FileJob) {xs ys : List Text} → Permᴰ xs ys → sum_files jobs xs ≡ sum_files jobs ys
unfolding sum_files
sum_files-perm jobs Permᴰ.nil = refl
sum_files-perm jobs (Permᴰ.cons e p) =
    let same = ap (suite_files jobs) e in omega (arith, same, sum_files-perm jobs p)
sum_files-perm jobs (Permᴰ.swap e e') =
    let same = ap (suite_files jobs) e in
    let same' = ap (suite_files jobs) e' in omega (arith, same, same')
sum_files-perm jobs (Permᴰ.trans p q) = sum_files-perm jobs p ∙ sum_files-perm jobs q

-- The numbers of files beside the suites that are shown.
abbrev pub shown_files : List (ℕ × Text) → ℕ
shown_files [] = 0
shown_files ((n, s) ∷ shown) = n + shown_files shown

shown_files-map :
    (jobs : List FileJob) (names : List Text)
    → shown_files (map (λ (s : Text). (suite_files jobs s, s)) names) ≡ sum_files jobs names
unfolding sum_files
shown_files-map jobs [] = refl
shown_files-map jobs (s ∷ names) =
    ap (λ (n : ℕ). suite_files jobs s + n) (shown_files-map jobs names)

kinds-count :
    (jobs : List FileJob)
    → All IsKnown jobs
    → (count_by_kind Format.corpus jobs + count_by_kind Format.zkevm jobs ≡ length jobs)
      × (bytes_of_kind Format.corpus jobs + bytes_of_kind Format.zkevm jobs ≡ total_bytes jobs)
unfolding count_by_kind bytes_of_kind total_bytes
kinds-count [] h = (omega arith, omega arith)
kinds-count (j ∷ jobs) (known, h) =
    let (n, b) = kinds-count jobs h in
    (
      one j.kind (count_by_kind Format.corpus jobs) (count_by_kind Format.zkevm jobs) known n,
      one_size j.kind (bytes_of_kind Format.corpus jobs) (bytes_of_kind Format.zkevm jobs) known b,
    )
  where
    one :
        (k : Format) (x y : ℕ)
        → k ≢ Format.unknown
        → x + y ≡ length jobs
        → (if same_kind k Format.corpus then x + 1 else x)
            + (if same_kind k Format.zkevm then y + 1 else y)
          ≡ suc (length jobs)
    one Format.unknown x y known' e = absurd (known' refl)
    one Format.corpus x y known' e = omega (arith, e)
    one Format.zkevm x y known' e = omega (arith, e)

    one_size :
        (k : Format) (x y : ℕ)
        → k ≢ Format.unknown
        → x + y ≡ total_bytes jobs
        → (if same_kind k Format.corpus then j.bytes + x else x)
            + (if same_kind k Format.zkevm then j.bytes + y else y)
          ≡ j.bytes + total_bytes jobs
    one_size Format.unknown x y known' e = absurd (known' refl)
    one_size Format.corpus x y known' e = omega (arith, e)
    one_size Format.zkevm x y known' e = omega (arith, e)

-- Of jobs of known formats, the census counts every file and every byte under one of the two
-- formats, and the files of the suites that it shows and of those that it does not add up to those
-- of all suites, whatever the order in which Go visits them.
pub print_census-totals :
    (visited : List Text) (jobs : List FileJob)
    → All IsKnown jobs
    → (count_by_kind Format.corpus jobs + count_by_kind Format.zkevm jobs
        ≡ (print_census visited jobs).files)
      × (bytes_of_kind Format.corpus jobs + bytes_of_kind Format.zkevm jobs
          ≡ (print_census visited jobs).bytes)
      × (shown_files (print_census visited jobs).shown + (print_census visited jobs).hidden_files
          ≡ sum_files jobs visited)
      × (length (print_census visited jobs).shown + (print_census visited jobs).hidden_suites
          ≡ length visited)
unfolding print_census
print_census-totals visited jobs known =
    let (files, bytes) = kinds-count jobs known in
    let perm = sort-perm (larger jobs) visited in
    let names = sort (larger jobs) visited in
    let split = take-append-drop max_suites_shown names in
    let sizes = length-append (take max_suites_shown names) (drop max_suites_shown names) in
    let sums = sum_files-append jobs (take max_suites_shown names) (drop max_suites_shown names) in
    let whole = ap (sum_files jobs) split in
    let whole' = ap (λ (l : List Text). length l) split in
    let shown = shown_files-map jobs (take max_suites_shown names) in
    let shown' =
      length-map {B = ℕ × Text} (λ (s : Text). (suite_files jobs s, s))
        (take max_suites_shown names) in
    (
      files,
      bytes,
      omega (arith, shown, sums, whole, sum_files-perm jobs perm),
      omega (arith, shown', sizes, whole', length-perm perm),
    )
