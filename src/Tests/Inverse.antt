-- ===== src/Tests/Inverse.antt =====
-- The inverse indexes at a registry of two findings.
use learning_loop_template.Base.{◌≡◌, List, [], ◌∷◌, codes}
use learning_loop_template.Json.{str}
use learning_loop_template.Registry.Entry.{Entry, finding, opened}
use learning_loop_template.Registry.Inverse.{inverse_refs, build_inverse_indexes, sources_of}
use learning_loop_template.Registry.Inverse.Agreement.{
  sources_by, build_inverse_indexes-inverse_refs,
}
use learning_loop_template.Tests.Registry.{blank}

abbrev again : Entry
again = record (blank "meta-2" finding opened 0) {
  content = ("reopens", str (codes "meta-1")) ∷ [];
}

abbrev findings : List Entry
findings = blank "meta-1" finding opened 0 ∷ again ∷ []

build_inverse_indexes-inverse_refs_example :
    (sources_of (codes "meta-1") (build_inverse_indexes findings).reopens_inverse
      ≡ sources_by "reopens" (inverse_refs (codes "meta-1") findings))
    × (sources_of (codes "meta-1") (build_inverse_indexes findings).addresses_inverse
        ≡ sources_by "addresses" (inverse_refs (codes "meta-1") findings))
build_inverse_indexes-inverse_refs_example =
    build_inverse_indexes-inverse_refs (codes "meta-1") findings
