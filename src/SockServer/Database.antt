-- ===== src/SockServer/Database.antt =====
-- cli_sqlite3/cli_sqlite3.c. The static pointer to the database is an optional one; a call runs
-- under the database's mutex.
pub mod Rows
pub mod Table
use practice_project.Prelude.{
  ℕ, ◌%◌, ◌^◌, List, [], ◌∷◌, Option, none, some, ◌>>=◌, Bool, true, false, ◌==◌, ◌&&◌, ltb,
  if◌then◌else◌,
}
use practice_project.SqlApi.{
  Row, Column, fd_column, ipaddr_column, port_column, addr_column, is_value, SqlRet, sql_ok,
  sql_constraint, sql_error, SqlApi,
}

-- `socket_handle_t`: UNSET, TCP_LINK with the descriptor, UDP_LINK with address and port.
pub data SocketHandle : Type 0 where
  unset : SocketHandle
  tcp_link : (fd : ℕ) → SocketHandle
  udp_link : (ipaddr port : ℕ) → SocketHandle

-- `atoi` of a printed number: one that is no `int` is undefined.
abbrev pub atoi : ℕ → Option ℕ
atoi n = if ltb n (2 ^ 31) then some n else none

-- The handle that a row's columns give; other combinations give UNSET.
abbrev pub columns_handle : (fd ipaddr port : Option ℕ) → Option SocketHandle
columns_handle (some fd) none none = do n ← atoi fd; some (tcp_link n)
columns_handle none (some ip) (some p) = do a ← atoi ip; n ← atoi p; some (udp_link a (n % 2 ^ 16))
columns_handle _ _ _ = some unset

abbrev pub row_handle : Row → Option SocketHandle
row_handle r = columns_handle r.fd r.ipaddr r.port

-- `select_result_handler`: a handle that is set stays.
pub select_result_handler : SocketHandle → Row → Option SocketHandle
select_result_handler unset r = row_handle r
select_result_handler (tcp_link fd) r = some (tcp_link fd)
select_result_handler (udp_link ip p) r = some (udp_link ip p)

-- The rows of SELECT ... WHERE endid == e, one call of the handler for each.
pub select_rows : ℕ → List Row → SocketHandle → Option SocketHandle
select_rows e [] h = some h
select_rows e (r ∷ rs) h =
    let here : Option SocketHandle = (do h' ← select_result_handler h r; select_rows e rs h') in
    let past = select_rows e rs h in if r.endid == e then here else past

-- `if (iret == SQLITE_CONSTRAINT)`.
abbrev pub if_constraint : {A : Type 0} → SqlRet → A → A → A
if_constraint sql_ok a b = b
if_constraint sql_constraint a b = a
if_constraint sql_error a b = b

module _ (api : SqlApi) where
  -- `create_cli_sql_database`, when the file can be opened.
  abbrev pub create_cli_sql_database : Option api.Db → api.Db
  create_cli_sql_database none = api.created
  create_cli_sql_database (some d) = d

  -- `add_tcp_cli_to_database`.
  pub add_tcp_cli_to_database : (endid fd : ℕ) → Option api.Db → api.Db
  add_tcp_cli_to_database endid fd s =
      let d = create_cli_sql_database s in
      let (iret, d') =
        api.insert (record { endid = endid; fd = some fd; ipaddr = none; port = none }) d in
      let updated =
        (api.update_where ((fd_column, some fd) ∷ (ipaddr_column, none) ∷ (port_column, none) ∷ [])
          endid d').1 in
      if_constraint iret updated d'

  -- `del_tcp_cli_from_database_by_fd`.
  pub del_tcp_cli_from_database_by_fd : (fd : ℕ) → Option api.Db → api.Db
  del_tcp_cli_from_database_by_fd fd s =
      (api.delete_where (λ r. is_value r.fd fd) (create_cli_sql_database s)).1

  -- `add_udp_cli_to_database`. Its UPDATE names a column `addr`.
  pub add_udp_cli_to_database : (endid ipaddr port : ℕ) → Option api.Db → api.Db
  add_udp_cli_to_database endid ipaddr port s =
      let d = create_cli_sql_database s in
      let (iret, d') =
        api.insert (record { endid = endid; fd = none; ipaddr = some ipaddr; port = some port })
          d in
      let updated =
        (api.update_where
          ((fd_column, none) ∷ (addr_column, some ipaddr) ∷ (port_column, some port) ∷ []) endid
          d').1 in
      if_constraint iret updated d'

  -- `del_udp_cli_from_database_by_ipaddr`.
  pub del_udp_cli_from_database_by_ipaddr : (ipaddr port : ℕ) → Option api.Db → api.Db
  del_udp_cli_from_database_by_ipaddr ipaddr port s =
      (api.delete_where (λ r. is_value r.ipaddr ipaddr && is_value r.port port)
        (create_cli_sql_database s)).1

  -- `get_cli_by_endid`: what the caller's handle holds afterwards.
  pub get_cli_by_endid : ℕ → SocketHandle → Option api.Db → Option (SocketHandle × api.Db)
  get_cli_by_endid endid h s = do
    let d = create_cli_sql_database s
    h' ← select_rows endid (api.rows d) h
    some (h', d)
