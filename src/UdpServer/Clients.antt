-- ===== src/UdpServer/Clients.antt =====
-- clientinfo_list/clientinfo_list.c. A function takes and returns the static pointer; it runs under
-- the list's mutex.
pub mod Lookup
use practice_project.Prelude.{
  ℕ, zero, suc, List, Option, none, some, ◌>>=◌, Bool, if◌then◌else◌, get_elem?,
}
use practice_project.ListApi.{ListApi}
use practice_project.Search.{index_by}
use practice_project.Statics.{Static, null, live, freed, deref, make_if_null}

-- `ClisInfoListNode`, with its address as a number.
pub record ClisInfoListNode : Type 0 where
  pub cli_id : ℕ
  pub addr : ℕ

module _ (api : ListApi ClisInfoListNode) where
  -- `InitCliInfoList`.
  abbrev pub init_cli_info_list : Bool → Static api.Head → Option (Static api.Head)
  init_cli_info_list mem s = make_if_null mem api.init s

  -- `while (!list_empty(...)) ...`, on fuel.
  pub empty_cli_info_list : ℕ → api.Head → Option api.Head
  empty_cli_info_list zero h = none
  empty_cli_info_list (suc k) h =
      let rest = empty_cli_info_list k (api.del 0 h) in if api.is_empty h then some h else rest

  -- `DestoryCliInfoList`; the static pointer keeps the address of what it frees.
  pub destory_cli_info_list : ℕ → Static api.Head → Option (Static api.Head)
  destory_cli_info_list k null = some null
  destory_cli_info_list k (live h) = do _ ← empty_cli_info_list k h; some freed
  destory_cli_info_list k freed = none

  -- `AddNodeToCliInfoList`.
  pub add_node_to_cli_info_list :
      Bool → (cli_id addr : ℕ) → Static api.Head → Option (Static api.Head)
  add_node_to_cli_info_list mem cli_id addr s = do
    s' ← init_cli_info_list mem s
    h ← deref s'
    let node : ClisInfoListNode = record { cli_id = cli_id; addr = addr }
    if mem then some (live (api.add node h)) else none

  -- `__GetCliInfoNodeByCliID`: the index of the node, `none` for NULL.
  pub get_cli_info_node_index : Bool → ℕ → Static api.Head → Option (Option ℕ × Static api.Head)
  get_cli_info_node_index mem cli_id s = do
    s' ← init_cli_info_list mem s
    h ← deref s'
    some (index_by ClisInfoListNode.cli_id cli_id (api.entries h), s')

  -- `DelCliInfoNodeFormListByCliID`; a NULL node is read through.
  pub del_cli_info_node_form_list_by_cli_id : Bool → ℕ → Static api.Head → Option (Static api.Head)
  del_cli_info_node_form_list_by_cli_id mem cli_id s = do
    (node, s') ← get_cli_info_node_index mem cli_id s
    i ← node
    h ← deref s'
    some (live (api.del i h))

  -- `GetCliInfoNodeByCliID`: what the pointer points to, `none` for NULL.
  pub get_cli_info_node_by_cli_id :
      Bool → ℕ → Static api.Head → Option (Option ClisInfoListNode × Static api.Head)
  get_cli_info_node_by_cli_id mem cli_id s = do
    (node, s') ← get_cli_info_node_index mem cli_id s
    h ← deref s'
    some ((node >>= λ i. get_elem? (api.entries h) i), s')
