-- ===== src/ClientInfo.antt =====
-- c/old_practice/work_srcs/socket_tcp/server/client_info/client_info.c: the clients of the TCP
-- server, on list.h. The static pointer is an optional head, which a function takes and returns,
-- and a pointer that a search returns is what it points to. `head_ok` and `node_ok` say whether
-- the allocations succeed; what `CloseFd` closes is a list.
pub mod Lookup
mod Tests
use practice_project.Prelude.{
  ℕ, zero, suc, List, [], ◌∷◌, Option, none, some, ◌>>=◌, Bool, ◌==◌, if◌then◌else◌, get_elem?,
}
use practice_project.ListApi.{ListApi}

-- `CliInfoNode`, with its address as a number.
pub record CliInfoNode : Type 0 where
  pub fd : ℕ
  pub cli_endid : ℕ
  pub addr : ℕ

-- 0 and -1.
pub data CliRet : Type 0 where
  done failed : CliRet

-- One place further on.
abbrev pub further : Option ℕ → Option ℕ
further none = none
further (some i) = some (suc i)

-- The loop over the list: the index of the first struct with the `fd`, or with the end.
abbrev pub index_by_fd : ℕ → List CliInfoNode → Option ℕ
index_by_fd n [] = none
index_by_fd n (c ∷ cs) =
    let rest = further (index_by_fd n cs) in if c.fd == n then some zero else rest

abbrev pub index_by_end_id : ℕ → List CliInfoNode → Option ℕ
index_by_end_id n [] = none
index_by_end_id n (c ∷ cs) =
    let rest = further (index_by_end_id n cs) in if c.cli_endid == n then some zero else rest

module _ (api : ListApi CliInfoNode) where
  -- `InitCliInfoManager`; the allocation is written through untested.
  unfoldable pub init_cli_info_manager : Bool → Option api.Head → Option (CliRet × Option api.Head)
  init_cli_info_manager head_ok (some h) = some (failed, some h)
  init_cli_info_manager head_ok none = if head_ok then some (done, some api.init) else none

  -- `GetCliInfoManager`.
  unfoldable pub get_cli_info_manager : Bool → Option api.Head → Option api.Head
  get_cli_info_manager head_ok (some h) = some h
  get_cli_info_manager head_ok none = do (_, m) ← init_cli_info_manager head_ok none; m

  -- `AddToCliInfo`.
  unfoldable pub add_to_cli_info :
      (head_ok node_ok : Bool)
      → Option CliInfoNode
      → Option api.Head
      → Option (CliRet × Option api.Head)
  add_to_cli_info head_ok node_ok none m = some (failed, m)
  add_to_cli_info head_ok node_ok (some c) m =
      let added : Option (CliRet × Option api.Head) = do
        h ← get_cli_info_manager head_ok m
        some (done, some (api.add (record c { cli_endid = 0 }) h))
      in if node_ok then added else none

  -- What the loop of `DelFromCliInfoByFd` does with the struct that it finds, and the return after
  -- the loop.
  pub del_index : ℕ → api.Head → Option ℕ → Option (CliRet × List ℕ × Option api.Head)
  del_index fd h none = some (failed, [], some h)
  del_index fd h (some i) = some (done, fd ∷ [], some (api.del i h))

  -- `DelFromCliInfoByFd`, with the descriptors that it closes.
  pub del_from_cli_info_by_fd :
      Bool → ℕ → Option api.Head → Option (CliRet × List ℕ × Option api.Head)
  del_from_cli_info_by_fd head_ok fd m = do
    h ← get_cli_info_manager head_ok m
    del_index fd h (index_by_fd fd (api.entries h))

  -- `GetOneCliInfoByFd`.
  unfoldable pub get_one_cli_info_by_fd :
      Bool → ℕ → Option api.Head → Option (Option CliInfoNode × Option api.Head)
  get_one_cli_info_by_fd head_ok fd m = do
    h ← get_cli_info_manager head_ok m
    some ((index_by_fd fd (api.entries h) >>= λ i. get_elem? (api.entries h) i), some h)

  -- `GetOneCliInfoByEndID`.
  unfoldable pub get_one_cli_info_by_end_id :
      Bool → ℕ → Option api.Head → Option (Option CliInfoNode × Option api.Head)
  get_one_cli_info_by_end_id head_ok cli_endid m = do
    h ← get_cli_info_manager head_ok m
    some ((index_by_end_id cli_endid (api.entries h) >>= λ i. get_elem? (api.entries h) i), some h)

  -- The same for `SaveOneCliInfoByFd`.
  unfoldable pub save_index : ℕ → api.Head → Option ℕ → Option (CliRet × Option api.Head)
  save_index src_end_id h none = some (failed, some h)
  save_index src_end_id h (some i) = do
    c ← get_elem? (api.entries h) i
    some (done, some (api.put i (record c { cli_endid = src_end_id }) h))

  -- `SaveOneCliInfoByFd`; `src_end_id` is that of the message.
  unfoldable pub save_one_cli_info_by_fd :
      Bool → (fd src_end_id : ℕ) → Option api.Head → Option (CliRet × Option api.Head)
  save_one_cli_info_by_fd head_ok fd src_end_id m = do
    h ← get_cli_info_manager head_ok m
    save_index src_end_id h (index_by_fd fd (api.entries h))
