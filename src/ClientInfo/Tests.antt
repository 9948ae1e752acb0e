-- ===== src/ClientInfo/Tests.antt =====
-- Two clients on a plain list.
use practice_project.Prelude.{
  ℕ, ◌≡◌, refl, ◌⊎◌, List, [], ◌∷◌, none, some, ◌==◌, if◌then◌else◌, true,
}
use practice_project.ListApi.{ListApi, plain_lists}
use practice_project.ClientInfo.{
  CliInfoNode, CliRet, done, failed, init_cli_info_manager, del_from_cli_info_by_fd,
  get_one_cli_info_by_end_id, get_cli_info_manager,
}
use practice_project.ClientInfo.Lookup.{lookup, del_from_cli_info_by_fd-lookup}

abbrev plain : ListApi CliInfoNode
plain = plain_lists CliInfoNode

abbrev six : CliInfoNode
six = record { fd = 6; cli_endid = 60; addr = 1 }

abbrev seven : CliInfoNode
seven = record { fd = 7; cli_endid = 70; addr = 1 }

abbrev two : List CliInfoNode
two = six ∷ seven ∷ []

end_found : get_one_cli_info_by_end_id plain true 70 (some two) ≡ some (some seven, some two)
unfolding get_one_cli_info_by_end_id get_cli_info_manager
end_found = refl

started :
    (init_cli_info_manager plain true none ≡ some (done, some []))
    × (init_cli_info_manager plain true (some two) ≡ some (failed, some two))
unfolding init_cli_info_manager
started = (refl, refl)

del_from_cli_info_by_fd-lookup_example :
    (g : List CliInfoNode) × (r : CliRet) × (closed : List ℕ) × (del_from_cli_info_by_fd plain true
        6
        (some two)
      ≡ some (r, closed, some g))
    × (((r ≡ failed) × (lookup 6 two ≡ none) × (closed ≡ []) × (g ≡ two))
        ⊎ ((r ≡ done)
            × ((c : CliInfoNode) × (lookup 6 two ≡ some c))
            × (closed ≡ 6 ∷ [])
            × ((k : ℕ) → lookup k g ≡ (if 6 == k then none else lookup k two))))
del_from_cli_info_by_fd-lookup_example =
    del_from_cli_info_by_fd-lookup plain true two 6 (refl, (refl, tt))
