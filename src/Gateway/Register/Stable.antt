-- ===== src/Gateway/Register/Stable.antt =====
-- Registering the system-managed MCP services settles: after one read there is nothing left to do.
use mathlib.Core.List.{append-nil}
use ai_base.Common.{
  String, ◌≡◌, refl, ap, subst, List, [], ◌∷◌, ◌++◌, map, false, arith, inl, inr, Bool-cases, any,
  keep,
}
use ai_base.Common.Results.{ok, thrown, Result-cases}
use ai_base.Common.Throwing.{ok-injective}
use ai_base.Url.{UrlApi}
use ai_base.Gateway.Types.{Snapshot, GatewayChannel, GatewayMcpServer}
use ai_base.Gateway.Store.{Store, apply_all, pure, write, lift, ◌>>=◌, ◌>>◌, left_by}
use ai_base.Gateway.Managed.{Env, get_system_managed_mcp_servers, open_connector_server, rag_server}
use ai_base.Gateway.Keys.{read_file, is_own, with_mcp_key, read_gateway_channels}
use ai_base.Gateway.Generate.{enabled_servers, generate_gateway_config}
use ai_base.Gateway.Generate.Names.{IsComplete, generate_gateway_config-IsComplete}
use ai_base.Gateway.Save.{read_gateway_mcp_servers_snapshot}
use ai_base.Gateway.Register.{
  misses_managed_backend, needs_registration, register_managed,
  ensure_system_managed_mcp_registration, read_gateway_mcp_servers,
}
use ai_base.Gateway.Register.Sync.{registration_writes, left-synced, left-config}

module _ (api : UrlApi) (env : Env) where
  managed-enabled :
      (own : List GatewayMcpServer)
      → enabled_servers (get_system_managed_mcp_servers api env ++ own)
        ≡ open_connector_server api env ∷ rag_server api env ∷ enabled_servers own
  unfolding enabled_servers keep open_connector_server rag_server
  managed-enabled own = refl

  none-missing :
      (text : String) (own : List GatewayMcpServer)
      → IsComplete text (enabled_servers (get_system_managed_mcp_servers api env ++ own))
      → misses_managed_backend api env text ≡ false
  unfolding misses_managed_backend any
  none-missing text own complete =
      let (connector, rest) = rw (managed-enabled own) at complete.named in
      let (rag, _) = rest in ground (arith, connector, rag)

  module _ (s : Store) (revision generated : String) (own : List GatewayMcpServer) where
    registered-settled :
        IsComplete generated (enabled_servers (get_system_managed_mcp_servers api env ++ own))
        → needs_registration api env (apply_all s (registration_writes env generated revision))
          ≡ false
    unfolding needs_registration
    registered-settled complete = rw (left-config env s generated revision complete.given) (
        rw (none-missing generated own complete)
          (rw complete.given (rw complete.marked (rw (left-synced env s generated revision)))))

  -- A configuration for the system-managed servers and others is complete.
  managed-IsComplete :
      (channels : List GatewayChannel) (own : List GatewayMcpServer) (generated : String)
      → generate_gateway_config api channels (get_system_managed_mcp_servers api env ++ own)
        ≡ ok generated
      → IsComplete generated (enabled_servers (get_system_managed_mcp_servers api env ++ own))
  managed-IsComplete channels own generated h =
      elim (generate_gateway_config-IsComplete api channels _ generated h) [
        | inl (_, _, nothing) ↦ absurd (cc (nothing, managed-enabled own))
        | inr complete ↦ complete
      ]

  register_managed-settled :
      (s : Store) (own : List GatewayMcpServer) (revision : String)
      → (register_managed api env s (get_system_managed_mcp_servers api env ++ own) revision).result
        ≡ ok tt
      → needs_registration api env (
          left_by s
            (register_managed api env s (get_system_managed_mcp_servers api env ++ own) revision))
        ≡ false
  unfolding register_managed ◌>>=◌ ◌>>◌ lift write registration_writes
  register_managed-settled s own revision h = elim (Result-cases (read_gateway_channels s)) [
    | inr (message, e) ↦ absurd (cc (rw (e, register_managed) at h))
    | inl (channels, e) ↦
        elim (Result-cases (
          generate_gateway_config api channels.entries
            (get_system_managed_mcp_servers api env ++ own))) [
              | inr (message, f) ↦
                  absurd (cc (rw (f, register_managed) at (rw (e, register_managed) at h)))
              | inl (generated, f) ↦ rw e (
                  rw f (
                    registered-settled s revision generated own
                      (managed-IsComplete channels.entries own generated f)))
            ]
  ]

  snapshot-managed :
      (s : Store) (snapshot : Snapshot GatewayMcpServer)
      → read_gateway_mcp_servers_snapshot api env s ≡ ok snapshot
      → (own : List GatewayMcpServer) × (get_system_managed_mcp_servers api env ++ own
          ≡ snapshot.entries)
  unfolding read_gateway_mcp_servers_snapshot
  snapshot-managed s snapshot h = elim (Result-cases (read_file s.mcp_servers)) [
    | inr (message, e) ↦ absurd (cc (rw (e, read_gateway_mcp_servers_snapshot) at h))
    | inl (stored, e) ↦ (
      map (with_mcp_key s.mcp_secrets) (keep is_own stored.entries),
      ap (λ (t : Snapshot GatewayMcpServer). t.entries)
          (ok-injective (rw (e, read_gateway_mcp_servers_snapshot) at h)),
    )
  ]

  ensure-settled :
      (s : Store) (own : List GatewayMcpServer) (revision : String)
      → (ensure_system_managed_mcp_registration api env s
          (get_system_managed_mcp_servers api env ++ own)
          revision).result
        ≡ ok tt
      → needs_registration api env (
          left_by s (
            ensure_system_managed_mcp_registration api env s
              (get_system_managed_mcp_servers api env ++ own)
              revision))
        ≡ false
  unfolding ensure_system_managed_mcp_registration pure
  ensure-settled s own revision h = elim (Bool-cases (needs_registration api env s)) [
    | inl needed ↦ rw needed (
        register_managed-settled s own revision
          (rw (needed, ensure_system_managed_mcp_registration) at h))
    | inr idle ↦ rw idle (unfold apply_all in idle)
  ]

  -- A read that returns has registered what had to be, and written nothing else.
  read-ensured :
      (s : Store) (revision : String) (snapshot returned : Snapshot GatewayMcpServer)
      → read_gateway_mcp_servers_snapshot api env s ≡ ok snapshot
      → (read_gateway_mcp_servers api env s revision).result ≡ ok returned
      → ((ensure_system_managed_mcp_registration api env s snapshot.entries revision).result
          ≡ ok tt)
        × ((read_gateway_mcp_servers api env s revision).writes
            ≡ (ensure_system_managed_mcp_registration api env s snapshot.entries revision).writes)
  unfolding read_gateway_mcp_servers ◌>>=◌ ◌>>◌ lift pure
  read-ensured s revision snapshot returned e h =
      elim (Result-cases
        (ensure_system_managed_mcp_registration api env s snapshot.entries revision).result) [
          | inr (message, f) ↦
              absurd
                (cc (rw (f, read_gateway_mcp_servers) at (rw (e, read_gateway_mcp_servers) at h)))
          | inl (done, f) ↦ (f, rw e (rw f (append-nil _)))
        ]

  read-unread :
      (s : Store) (revision message : String)
      → read_gateway_mcp_servers_snapshot api env s ≡ thrown message
      → (read_gateway_mcp_servers api env s revision).result ≡ thrown message
  unfolding read_gateway_mcp_servers ◌>>=◌ lift
  read-unread s revision message e = rw e

  -- A read of a store with nothing to register writes nothing.
  read-idle :
      (s : Store) (revision : String)
      → needs_registration api env s ≡ false
      → (read_gateway_mcp_servers api env s revision).writes ≡ []
  unfolding read_gateway_mcp_servers ensure_system_managed_mcp_registration ◌>>=◌ ◌>>◌ lift pure
  read-idle s revision idle = elim (Result-cases (read_gateway_mcp_servers_snapshot api env s)) [
    | inr (message, e) ↦ rw e
    | inl (snapshot, e) ↦ rw e (rw idle)
  ]

  module _ (s : Store) (revision later : String) (snapshot : Snapshot GatewayMcpServer) where
    -- After a read of the MCP servers that returns, the store that it leaves behind needs no
    -- registration in the same environment, and a second read of it writes nothing.
    pub read_gateway_mcp_servers-settled :
        (read_gateway_mcp_servers api env s revision).result ≡ ok snapshot
        → (needs_registration api env (left_by s (read_gateway_mcp_servers api env s revision))
            ≡ false)
          × ((read_gateway_mcp_servers api env
                (left_by s (read_gateway_mcp_servers api env s revision))
                later).writes
              ≡ [])
    read_gateway_mcp_servers-settled h = (settled, read-idle _ later settled)
      where
        settled :
            needs_registration api env (left_by s (read_gateway_mcp_servers api env s revision))
            ≡ false
        settled = elim (Result-cases (read_gateway_mcp_servers_snapshot api env s)) [
          | inr (message, e) ↦ absurd (cc (read-unread s revision message e, h))
          | inl (found, e) ↦
              let (returned, written) = read-ensured s revision found snapshot e h in
              let (own, form) = snapshot-managed s found e in
              rw written (
                subst
                  (λ entries.
                    (ensure_system_managed_mcp_registration api env s entries revision).result
                      ≡ ok tt
                    → needs_registration api env (
                        left_by s
                          (ensure_system_managed_mcp_registration api env s entries revision))
                      ≡ false)
                  form (ensure-settled s own revision) returned)
        ]
