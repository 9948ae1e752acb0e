-- ===== src/SockServer/Database/Table.antt =====
-- The table as a map from ends to links.
use practice_project.Prelude.{
  ℕ, ◌≡◌, ◌≢◌, refl, List, [], ◌∷◌, Option, none, some, Bool, false, ◌==◌, ◌&&◌, if◌then◌else◌, inl,
  inr,
}
use practice_project.SqlApi.{
  Row, fd_column, ipaddr_column, port_column, addr_column, is_value, SqlApi,
}
use practice_project.SockServer.Database.{
  SocketHandle, unset, row_handle, create_cli_sql_database, add_tcp_cli_to_database,
  del_tcp_cli_from_database_by_fd, add_udp_cli_to_database, del_udp_cli_from_database_by_ipaddr,
  get_cli_by_endid,
}
use practice_project.SockServer.Database.Rows.{
  find_row, find_row-append, find_row-replace_at, find_row-keep_unless, find_row-kept,
  select_rows-find_row, row_cases, find_row-endid,
}

module _ (api : SqlApi) where
  -- The rows, before the first use too.
  abbrev pub table : Option api.Db → List Row
  table s = api.rows (create_cli_sql_database api s)

  -- After `add_tcp_cli_to_database` the row of the end is that of a TCP link with the descriptor,
  -- whether the end was in the table or not, and every other row is as before.
  pub add_tcp_cli_to_database-find_row :
      (e fd k : ℕ) (s : Option api.Db)
      → find_row k (api.rows (add_tcp_cli_to_database api e fd s)) ≡ (
          if e == k
          then some (record { endid = e; fd = some fd; ipaddr = none; port = none })
          else find_row k (table s))
  unfolding add_tcp_cli_to_database
  add_tcp_cli_to_database-find_row e fd k s =
      let d = create_cli_sql_database api s in
      let new : Row = record { endid = e; fd = some fd; ipaddr = none; port = none } in
      elim (row_cases (find_row e (table s))) [
        | inl absent ↦
            let (ok, rows) = api.insert-new new d absent in
            rw (ok, rows) (find_row-append k (table s) new absent)
        | inr (old, known) ↦
            let same : old.endid ≡ e = find_row-endid e (table s) old known in
            let refused = api.insert-known new old d known in
            let (ok, rows) =
              api.update-known
                ((fd_column, some fd) ∷ (ipaddr_column, none) ∷ (port_column, none) ∷ []) e old
                (record old { fd = some fd; ipaddr = none; port = none }) d known refl in
            rw (refused, rows) (rw same (find_row-replace_at e k (table s) old new known refl))
      ]

  -- After `add_udp_cli_to_database` of an end that is not in the table its row is that of a UDP
  -- link with the address, and every other row is as before.
  pub add_udp_cli_to_database-new :
      (e ip p k : ℕ) (s : Option api.Db)
      → find_row e (table s) ≡ none
      → find_row k (api.rows (add_udp_cli_to_database api e ip p s)) ≡ (
          if e == k
          then some (record { endid = e; fd = none; ipaddr = some ip; port = some p })
          else find_row k (table s))
  unfolding add_udp_cli_to_database
  add_udp_cli_to_database-new e ip p k s absent =
      let new : Row = record { endid = e; fd = none; ipaddr = some ip; port = some p } in
      let (ok, rows) = api.insert-new new (create_cli_sql_database api s) absent in
      rw (ok, rows) (find_row-append k (table s) new absent)

  -- `add_udp_cli_to_database` of an end that is in the table, with any link, changes nothing: the
  -- UPDATE is refused, for the table has no column `addr`.
  pub add_udp_cli_to_database-known :
      (e ip p : ℕ) (old : Row) (s : Option api.Db)
      → find_row e (table s) ≡ some old
      → add_udp_cli_to_database api e ip p s ≡ create_cli_sql_database api s
  unfolding add_udp_cli_to_database
  add_udp_cli_to_database-known e ip p old s known =
      let d = create_cli_sql_database api s in
      let new : Row = record { endid = e; fd = none; ipaddr = some ip; port = some p } in
      let refused =
        api.update-refused ((fd_column, none) ∷ (addr_column, some ip) ∷ (port_column, some p) ∷ [])
          e d (λ r. refl) in
      rw (api.insert-known new old d known, refused) refl

  -- `get_cli_by_endid` on an unset handle gives the link of the end's row.
  pub get_cli_by_endid-found :
      (e : ℕ) (r : Row) (h : SocketHandle) (s : Option api.Db)
      → find_row e (table s) ≡ some r
      → row_handle r ≡ some h
      → h ≢ unset
      → get_cli_by_endid api e unset s ≡ some (h, create_cli_sql_database api s)
  unfolding get_cli_by_endid
  get_cli_by_endid-found e r h s known gives set =
      rw (select_rows-find_row e (table s) r h known gives set) refl

  -- After `del_tcp_cli_from_database_by_fd` no row that a search finds has the descriptor.
  pub del_tcp_cli_from_database_by_fd-gone :
      (fd k : ℕ) (r : Row) (s : Option api.Db)
      → find_row k (api.rows (del_tcp_cli_from_database_by_fd api fd s)) ≡ some r
      → is_value r.fd fd ≡ false
  unfolding del_tcp_cli_from_database_by_fd
  del_tcp_cli_from_database_by_fd-gone fd k r s there =
      let (_, rows) = api.delete-rows (λ x. is_value x.fd fd) (create_cli_sql_database api s) in
      find_row-kept (λ x. is_value x.fd fd) k (table s) r (rw rows at there)

  -- `del_tcp_cli_from_database_by_fd` leaves every row with another descriptor, or with none.
  pub del_tcp_cli_from_database_by_fd-keeps :
      (fd k : ℕ) (r : Row) (s : Option api.Db)
      → find_row k (table s) ≡ some r
      → is_value r.fd fd ≡ false
      → find_row k (api.rows (del_tcp_cli_from_database_by_fd api fd s)) ≡ some r
  unfolding del_tcp_cli_from_database_by_fd
  del_tcp_cli_from_database_by_fd-keeps fd k r s known other =
      let (_, rows) = api.delete-rows (λ x. is_value x.fd fd) (create_cli_sql_database api s) in
      rw rows (find_row-keep_unless (λ x. is_value x.fd fd) k (table s) r known other)

  -- `del_udp_cli_from_database_by_ipaddr` leaves every row without an address.
  del_udp_cli_from_database_by_ipaddr-keeps :
      (ip p k : ℕ) (r : Row) (s : Option api.Db)
      → find_row k (table s) ≡ some r
      → r.ipaddr ≡ none
      → find_row k (api.rows (del_udp_cli_from_database_by_ipaddr api ip p s)) ≡ some r
  unfolding del_udp_cli_from_database_by_ipaddr
  del_udp_cli_from_database_by_ipaddr-keeps ip p k r s known none_in =
      let at : Row → Bool = λ x. is_value x.ipaddr ip && is_value x.port p in
      let (_, rows) = api.delete-rows at (create_cli_sql_database api s) in
      rw rows (find_row-keep_unless at k (table s) r known (rw none_in refl))
