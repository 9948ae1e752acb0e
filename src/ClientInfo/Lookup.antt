-- ===== src/ClientInfo/Lookup.antt =====
-- The list of clients as a map from descriptors to clients.
use practice_project.Prelude.{
  ℕ, zero, suc, ◌≡◌, refl, List, [], ◌∷◌, Option, none, some, ◌>>=◌, ◌∙◌, arith, ◌==◌,
  if◌then◌else◌, get_elem?, set, Bool, true, false, ◌⊎◌, inl, inr,
}
use native.Mathlib.Decide.{ℕ_discrete}
use practice_project.ListApi.{ListApi, remove_at}
use practice_project.ClientInfo.{
  CliInfoNode, CliRet, done, failed, index_by_fd, index_by_end_id, further, get_cli_info_manager,
  add_to_cli_info, del_from_cli_info_by_fd, del_index, save_index, get_one_cli_info_by_fd,
  save_one_cli_info_by_fd,
}

-- The first client with the descriptor.
abbrev pub lookup : ℕ → List CliInfoNode → Option CliInfoNode
lookup n [] = none
lookup n (c ∷ cs) = let rest = lookup n cs in if c.fd == n then some c else rest

-- The first client with the end.
abbrev pub find_end : ℕ → List CliInfoNode → Option CliInfoNode
find_end n [] = none
find_end n (c ∷ cs) = let rest = find_end n cs in if c.cli_endid == n then some c else rest

-- What `GetOneCliInfoByEndID` points to.
pub find_end-index_by_end_id :
    (n : ℕ) (cs : List CliInfoNode) → (index_by_end_id n cs >>= λ i. get_elem? cs i) ≡ find_end n cs
find_end-index_by_end_id n [] = refl
find_end-index_by_end_id n (c ∷ cs) = elim (ℕ_discrete c.cli_endid n) [
  | yes same ↦ let e : (c.cli_endid == n) ≡ true = ground arith in rw e refl
  | no other ↦
      let e : (c.cli_endid == n) ≡ false = ground arith in
      rw e (further_bind (index_by_end_id n cs) ∙ find_end-index_by_end_id n cs)
]
  where
    further_bind :
        (o : Option ℕ) → (further o >>= λ i. get_elem? (c ∷ cs) i) ≡ (o >>= λ i. get_elem? cs i)
    further_bind none = refl
    further_bind (some i) = refl

-- No two clients have the same descriptor.
abbrev pub Distinct : List CliInfoNode → Type 0
Distinct [] = Unit
Distinct (c ∷ cs) = (lookup c.fd cs ≡ none) × Distinct cs

-- The two ways a search ends.
data Found (n : ℕ) (cs : List CliInfoNode) : Type 0 where
  missing : lookup n cs ≡ none → index_by_fd n cs ≡ none → Found n cs
  found :
      (i : ℕ) (c : CliInfoNode)
      → lookup n cs ≡ some c
      → index_by_fd n cs ≡ some i
      → get_elem? cs i ≡ some c
      → c.fd ≡ n
      → ((k : ℕ) (d : CliInfoNode)
          → d.fd ≡ n
          → lookup k (set cs i d) ≡ (if n == k then some d else lookup k cs))
      → (Distinct cs → (k : ℕ) → lookup k (remove_at i cs) ≡ (if n == k then none else lookup k cs))
      → Found n cs

search_list : (n : ℕ) (cs : List CliInfoNode) → Found n cs
search_list n [] = missing refl refl
search_list n (c ∷ cs) = elim (ℕ_discrete c.fd n) [
  | yes same ↦
      found zero c (ground arith) (ground arith) refl same (λ k d e. ground arith)
        (λ apart k. ground (arith, apart.0))
  | no other ↦ elim (search_list n cs) [
    | missing e f ↦ missing (ground arith) (ground arith)
    | found i d e f g same written removed ↦
        found (suc i) d (ground arith) (ground arith) g same
          (λ k x at. ground (arith, written k x at)) (λ apart k. ground (arith, removed apart.1 k))
  ]
]

module _ (api : ListApi CliInfoNode) where
  -- `GetOneCliInfoByFd` on a list that is made finds the first client with the descriptor.
  pub get_one_cli_info_by_fd-lookup :
      (mem : Bool) (h : api.Head) (fd : ℕ)
      → get_one_cli_info_by_fd api mem fd (some h) ≡ some (lookup fd (api.entries h), some h)
  unfolding get_one_cli_info_by_fd get_cli_info_manager
  get_one_cli_info_by_fd-lookup mem h fd = elim (search_list fd (api.entries h)) [
    | missing e f ↦ rw (e, f)
    | found i c e f g same written removed ↦ rw (e, f, g)
  ]

  -- `SaveOneCliInfoByFd` on a list that is made: for a descriptor that no client has it returns -1
  -- and changes nothing. Else it returns 0 and gives the first client with the descriptor the
  -- message's end, while a search for any other descriptor ends as before.
  pub save_one_cli_info_by_fd-lookup :
      (mem : Bool) (h : api.Head) (fd src : ℕ)
      → (g : api.Head) × (r : CliRet) × (save_one_cli_info_by_fd api mem fd src (some h)
          ≡ some (r, some g))
        × (((r ≡ failed) × (lookup fd (api.entries h) ≡ none) × (g ≡ h))
            ⊎ ((r ≡ done)
                × ((c : CliInfoNode) × (lookup fd (api.entries h) ≡ some c)
                    × ((k : ℕ)
                        → lookup k (api.entries g) ≡ (
                            if fd == k
                            then some (record c { cli_endid = src })
                            else lookup k (api.entries h))))))
  unfolding save_one_cli_info_by_fd save_index get_cli_info_manager
  save_one_cli_info_by_fd-lookup mem h fd src = elim (search_list fd (api.entries h)) [
    | missing e f ↦ (h, failed, rw f, inl (refl, e, refl))
    | found i c e f g same written removed ↦ (
      api.put i (record c { cli_endid = src }) h,
      done,
      rw (f, g),
      inr (
        refl,
        (c, e, λ k. rw (api.entries-put i (record c { cli_endid = src }) h) (written k _ same)),
      ),
    )
  ]

  -- `DelFromCliInfoByFd` on a list that is made and in which no two clients have the same
  -- descriptor: for a descriptor that no client has it returns -1, closes nothing and changes
  -- nothing. For one that a client has it returns 0 and closes just that descriptor, and
  -- afterwards no client has it, while a search for any other descriptor ends as before.
  pub del_from_cli_info_by_fd-lookup :
      (mem : Bool) (h : api.Head) (fd : ℕ)
      → Distinct (api.entries h)
      → (g : api.Head) × (r : CliRet) × (closed : List ℕ) × (del_from_cli_info_by_fd api mem fd
            (some h)
          ≡ some (r, closed, some g))
        × (((r ≡ failed) × (lookup fd (api.entries h) ≡ none) × (closed ≡ []) × (g ≡ h))
            ⊎ ((r ≡ done)
                × ((c : CliInfoNode) × (lookup fd (api.entries h) ≡ some c))
                × (closed ≡ fd ∷ [])
                × ((k : ℕ)
                    → lookup k (api.entries g)
                      ≡ (if fd == k then none else lookup k (api.entries h)))))
  unfolding del_from_cli_info_by_fd del_index get_cli_info_manager
  del_from_cli_info_by_fd-lookup mem h fd apart = elim (search_list fd (api.entries h)) [
    | missing e f ↦ (h, failed, [], rw f, inl (refl, e, refl, refl))
    | found i c e f g same written removed ↦ (
      api.del i h,
      done,
      fd ∷ [],
      rw f,
      inr (refl, (c, e), refl, λ k. rw (api.entries-del i h) (removed apart k)),
    )
  ]

  -- `AddToCliInfo` of a client, with memory for the node, on a list that is made returns 0.
  -- Afterwards a search for the client's descriptor finds it, with end 0, and a search for any other
  -- one ends as before. A NULL client is refused with -1, and changes nothing.
  pub add_to_cli_info-lookup :
      (mem node_ok : Bool) (h : api.Head) (c : CliInfoNode)
      → ((g : api.Head) × (add_to_cli_info api mem true (some c) (some h) ≡ some (done, some g))
          × ((k : ℕ)
              → lookup k (api.entries g) ≡ (
                  if c.fd == k
                  then some (record c { cli_endid = 0 })
                  else lookup k (api.entries h))))
        × (add_to_cli_info api mem node_ok none (some h) ≡ some (failed, some h))
  unfolding add_to_cli_info get_cli_info_manager
  add_to_cli_info-lookup mem node_ok h c = (
    (
      api.add (record c { cli_endid = 0 }) h,
      refl,
      λ k. rw (api.entries-add (record c { cli_endid = 0 }) h),
    ),
    refl,
  )
