-- ===== src/Fixture/Load/Order.antt =====
-- The test cases that LoadZkevmFile of fixture/fixture.go returns: their names and their order.
use stateless_executor.Prelude.{◌≡◌, ap, sym, ◌∙◌, List, [], ◌∷◌, map}
use stateless_executor.Prelude.Errors.{ok, >>=-eq-ok, wrapping}
use stateless_executor.Prelude.Text.{Text}
use stateless_executor.Prelude.Endian.{Bytes}
use stateless_executor.Prelude.Sort.{sort, IsSorted, sort-IsSorted}
use stateless_executor.Prelude.Sort.Orders.{text_lt, text_lt-IsOrder, sort-text_lt-perm}
use stateless_executor.Fixture.Zkevm.{ZkevmTestCase}
use stateless_executor.Fixture.Load.{RawMap, Disk, load_cases, load_zkevm_map, with_engine}
use mathlib.Core.List.{Permᴰ}

abbrev pub names : List ZkevmTestCase → List Text
names tcs = map (λ (tc : ZkevmTestCase). tc.name) tcs

module _ (d : Disk) where
  names-load_cases :
      (at : Text → Bytes) (keys : List Text) {tcs : List ZkevmTestCase}
      → load_cases d at keys ≡ ok tcs
      → names tcs ≡ keys
  unfolding load_cases
  names-load_cases at [] {tcs} h = let same : [] ≡ tcs = cc in ap names (sym same)
  names-load_cases at (key ∷ keys) {tcs} h =
      let (tc, _, h1) = >>=-eq-ok (wrapping "parse test" (d.unmarshal_case (at key))) _ h in
      let (tc', _, h2) = >>=-eq-ok (with_engine d (at key) tc) _ h1 in
      let (out, q, h3) = >>=-eq-ok (load_cases d at keys) _ h2 in
      let same : record tc' { name = key } ∷ out ≡ tcs = cc in
      ap names (sym same) ∙ ap (λ (l : List Text). key ∷ l) (names-load_cases at keys q)

  -- The order in which Go visits a map does not show: if one visit gives test cases, any other
  -- gives the same, named by the keys of the map in the order of their bytes.
  pub load_zkevm_map-perm :
      (m : RawMap) (keys : List Text)
      → Permᴰ m.keys keys
      → {tcs : List ZkevmTestCase} → load_zkevm_map d m ≡ ok tcs
      → (load_zkevm_map d (record m { keys = keys }) ≡ ok tcs)
        × (names tcs ≡ sort text_lt keys)
        × IsSorted text_lt (names tcs)
  unfolding load_zkevm_map
  load_zkevm_map-perm m keys order {tcs} h =
      let same = sort-text_lt-perm order in
      let named = names-load_cases m.at (sort text_lt m.keys) h ∙ same in
      (
        ap (load_cases d m.at) (sym same) ∙ h,
        named,
        rw named (sort-IsSorted text_lt text_lt-IsOrder keys),
      )
