-- ===== src/UdpServer/Clients/Lookup.antt =====
-- The list of clients as a map from ends to addresses, the last registration first.
use practice_project.Prelude.{
  ℕ, zero, suc, ◌<◌, ◌≡◌, refl, List, [], ◌∷◌, Option, none, some, Bool, true, false, arith, ◌==◌,
  if◌then◌else◌, length,
}
use practice_project.ListApi.{ListApi}
use practice_project.Search.{lookup_by, missing, found, index_by-Search}
use practice_project.Statics.{Static, null, live, freed}
use practice_project.UdpServer.Clients.{
  ClisInfoListNode, empty_cli_info_list, destory_cli_info_list, add_node_to_cli_info_list,
  get_cli_info_node_index, del_cli_info_node_form_list_by_cli_id, get_cli_info_node_by_cli_id,
}

module _ (api : ListApi ClisInfoListNode) where
  -- The registered clients; there is none before the first use.
  abbrev pub registered : Static api.Head → List ClisInfoListNode
  registered null = []
  registered (live h) = api.entries h
  registered freed = []

  -- The pointer is NULL or leads to the list.
  abbrev pub IsUsable : Static api.Head → Type 0
  IsUsable null = Unit
  IsUsable (live h) = Unit
  IsUsable freed = ⊥

  abbrev pub lookup_id : ℕ → Static api.Head → Option ClisInfoListNode
  lookup_id n s = lookup_by ClisInfoListNode.cli_id n (registered s)

  -- With memory, on a list that is not destroyed, `AddNodeToCliInfoList` returns: a search for the
  -- end finds the new address, also if the end was registered before, and a search for any other
  -- end finds what it found.
  pub add_node_to_cli_info_list-lookup :
      (n addr : ℕ) (s : Static api.Head)
      → IsUsable s
      → (t : Static api.Head) × (add_node_to_cli_info_list api true n addr s ≡ some t)
        × IsUsable t
        × ((k : ℕ)
            → lookup_id k t
              ≡ (if n == k then some (record { cli_id = n; addr = addr }) else lookup_id k s))
  unfolding add_node_to_cli_info_list
  add_node_to_cli_info_list-lookup n addr null ok =
      let node : ClisInfoListNode = record { cli_id = n; addr = addr } in
      (
        live (api.add node api.init),
        refl,
        tt,
        λ k. rw (api.entries-add node api.init, api.entries-init),
      )
  add_node_to_cli_info_list-lookup n addr freed ok = elim ok [ ]
  add_node_to_cli_info_list-lookup n addr (live h) ok =
      let node : ClisInfoListNode = record { cli_id = n; addr = addr } in
      (live (api.add node h), refl, tt, λ k. rw (api.entries-add node h))

  -- With memory, on a list that is not destroyed, `GetCliInfoNodeByCliID` finds the last
  -- registration of the end, or NULL if there is none, and leaves the list usable and with the same
  -- clients.
  pub get_cli_info_node_by_cli_id-lookup :
      (n : ℕ) (s : Static api.Head)
      → IsUsable s
      → (t : Static api.Head) × (get_cli_info_node_by_cli_id api true n s ≡ some (lookup_id n s, t))
        × IsUsable t
        × (registered t ≡ registered s)
  unfolding get_cli_info_node_by_cli_id get_cli_info_node_index
  get_cli_info_node_by_cli_id-lookup n null ok =
      (live api.init, rw api.entries-init, tt, api.entries-init)
  get_cli_info_node_by_cli_id-lookup n freed ok = elim ok [ ]
  get_cli_info_node_by_cli_id-lookup n (live h) ok =
      elim (index_by-Search ClisInfoListNode.cli_id n (api.entries h)) [
        | missing e f ↦ (live h, rw (e, f), tt, refl)
        | found i c e f g same removed ↦ (live h, rw (e, f, g), tt, refl)
      ]

  -- With memory, on a list that is not destroyed, `DelCliInfoNodeFormListByCliID` of an end that is
  -- registered returns, and a search for any other end finds what it found.
  pub del_cli_info_node_form_list_by_cli_id-lookup :
      (n k : ℕ) (s : Static api.Head) (c : ClisInfoListNode)
      → IsUsable s
      → lookup_id n s ≡ some c
      → (n == k) ≡ false
      → (t : Static api.Head) × (del_cli_info_node_form_list_by_cli_id api true n s ≡ some t)
        × IsUsable t
        × (lookup_id k t ≡ lookup_id k s)
  unfolding del_cli_info_node_form_list_by_cli_id get_cli_info_node_index
  del_cli_info_node_form_list_by_cli_id-lookup n k null c ok e ne = absurd (ground arith)
  del_cli_info_node_form_list_by_cli_id-lookup n k freed c ok e ne = elim ok [ ]
  del_cli_info_node_form_list_by_cli_id-lookup n k (live h) c ok e ne =
      elim (index_by-Search ClisInfoListNode.cli_id n (api.entries h)) [
        | missing e' f ↦ absurd (ground arith)
        | found i d e' f g same removed ↦
            (live (api.del i h), rw f, tt, rw (api.entries-del i h) (removed k ne))
      ]

  -- With memory, on a list that is not destroyed, `DelCliInfoNodeFormListByCliID` of an end that is
  -- not registered is a fault: the NULL node is read through.
  pub del_cli_info_node_form_list_by_cli_id-absent :
      (n : ℕ) (s : Static api.Head)
      → IsUsable s
      → lookup_id n s ≡ none
      → del_cli_info_node_form_list_by_cli_id api true n s ≡ none
  unfolding del_cli_info_node_form_list_by_cli_id get_cli_info_node_index
  del_cli_info_node_form_list_by_cli_id-absent n null ok e = rw api.entries-init
  del_cli_info_node_form_list_by_cli_id-absent n freed ok e = elim ok [ ]
  del_cli_info_node_form_list_by_cli_id-absent n (live h) ok e =
      elim (index_by-Search ClisInfoListNode.cli_id n (api.entries h)) [
        | missing e' f ↦ rw f
        | found i d e' f g same removed ↦ absurd (ground arith)
      ]

  empty_cli_info_list-ok :
      (k : ℕ) (h : api.Head) (items : List ClisInfoListNode)
      → api.entries h ≡ items
      → length items < k
      → (g : api.Head) × (empty_cli_info_list api k h ≡ some g)
  unfolding empty_cli_info_list
  empty_cli_info_list-ok zero h items e fuel = absurd (omega arith)
  empty_cli_info_list-ok (suc k) h [] e fuel = (h, rw (api.is_empty-entries h, e))
  empty_cli_info_list-ok (suc k) h (x ∷ xs) e fuel =
      let rest : api.entries (api.del 0 h) ≡ xs = rw (api.entries-del 0 h, e) in
      let (g, done) = empty_cli_info_list-ok k (api.del 0 h) xs rest (omega arith) in
      (g, rw (api.is_empty-entries h, e) done)

  -- `DestoryCliInfoList` on a list, with more rounds than clients, returns and leaves the static
  -- pointer to what it has freed: every later registration is a fault.
  pub destory_cli_info_list-stale :
      (k n addr : ℕ) (mem : Bool) (h : api.Head)
      → length (api.entries h) < k
      → (t : Static api.Head) × (destory_cli_info_list api k (live h) ≡ some t)
        × (add_node_to_cli_info_list api mem n addr t ≡ none)
  unfolding destory_cli_info_list add_node_to_cli_info_list
  destory_cli_info_list-stale k n addr mem h fuel =
      let (g, e) = empty_cli_info_list-ok k h (api.entries h) refl fuel in (freed, rw e, refl)
