-- ===== src/Transparent/Service.antt =====
-- proxy/registry.rs: a registered service.
use vaultproxy.Prelude.{ℕ, Bool, true, false, Option, Text}

pub data AuthPattern : Type 0 where
  header : (header_name vault_item : Text) → AuthPattern
  query_param : (param_name vault_item : Text) → AuthPattern
  bearer : (vault_item : Text) → AuthPattern
  basic : (vault_item key_field secret_field : Text) → AuthPattern
  session : (vault_item login_path token_field : Text) (login_include_username : Bool) → AuthPattern
  unifi_dual : (vault_item login_path : Text) → AuthPattern
  oauth_client_credentials :
      (vault_item token_url client_id_field client_secret_field scope : Text) → AuthPattern
  oauth_refresh :
      (vault_item token_url client_id_field client_secret_field refresh_token_field scope : Text)
      (writeback : Bool)
      → AuthPattern

-- Whether a request needs no other request for its credential.
abbrev pub is_stateless_for_host_inject : AuthPattern → Bool
is_stateless_for_host_inject (header header_name vault_item) = true
is_stateless_for_host_inject (query_param param_name vault_item) = true
is_stateless_for_host_inject (bearer vault_item) = true
is_stateless_for_host_inject (basic vault_item key_field secret_field) = true
is_stateless_for_host_inject (session vault_item login_path token_field username) = false
is_stateless_for_host_inject (unifi_dual vault_item login_path) = false
is_stateless_for_host_inject (oauth_client_credentials item url client_id secret scope) = false
is_stateless_for_host_inject (oauth_refresh item url client_id secret refresh scope writeback) =
    false

pub data TransparentMode : Type 0 where
  off : TransparentMode
  host_inject : TransparentMode
  placeholder : TransparentMode
  passthrough : TransparentMode

pub record ServiceEntry : Type 0 where
  pub name : Text
  pub base_url : Text
  pub auth : AuthPattern
  pub insecure_tls : Bool
  pub ca_cert_path : Option Text
  pub timeout_secs : Option ℕ
  pub transparent_mode : TransparentMode
