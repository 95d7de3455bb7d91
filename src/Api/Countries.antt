-- ===== src/Api/Countries.antt =====
-- `api_geoip_add_rule` and `api_geoip_delete_rule` of src/api/geoip.c: the countries that the packet
-- filter blocks.
pub mod Blocked
use cyrenus.Api.Maps.{Syscalls}
use cyrenus.Api.Json.{respond, JsonC, Response}
use cyrenus.Xdp.State.{State}
use cyrenus.Prelude.{
  [], ◌∷◌, ◌+◌, ◌*◌, ◌%◌, codes, none, ltb, Text, some, some, if◌then◌else◌, Option, ℕ,
}

-- `(uint16_t)((code[0] << 8) | code[1])`, where `char` is signed: a second byte of 128 or more fills
-- the upper half with ones.
unfoldable pub country_key : ℕ → ℕ → ℕ
country_key c0 c1 = if ltb c1 128 then c0 % 256 * 256 + c1 else 65280 + c1 % 256

abbrev pub countries_set : State → Option (ℕ → Option ℕ) → State
countries_set s none = s
countries_set s (some m) = record s { blocked_countries = m }

abbrev pub message_of {ℓ} : {A : Type ℓ} → Option A → Response → Response → Response
message_of none failed done = failed
message_of (some a) failed done = done

abbrev pub update_failed : Response
update_failed = respond 500 (codes "{\"error\":\"Failed to update BPF map\"}")

module _ (bpf : Syscalls) where
  -- The value 1 is a drop.
  abbrev pub block_key : State → ℕ → Response × State
  block_key s key =
      let m = bpf.blocked_countries.update s.blocked_countries key 1 in
      (
        message_of m update_failed (respond 200 (codes "{\"status\":\"blocked\"}")),
        countries_set s m,
      )

  abbrev pub unblock_key : State → ℕ → Response × State
  unblock_key s key =
      let m = bpf.blocked_countries.delete s.blocked_countries key in
      (
        message_of m (respond 404 (codes "{\"error\":\"Rule not found\"}"))
            (respond 200 (codes "{\"status\":\"unblocked\"}")),
        countries_set s m,
      )

  -- strlen(code_str) != 2
  abbrev pub block_code : State → Text → Response × State
  block_code s (c0 ∷ c1 ∷ []) = block_key s (country_key c0 c1)
  block_code s _ = (respond 400 (codes "{\"error\":\"Invalid country code\"}"), s)

  unfoldable pub api_geoip_delete_rule : State → Text → Response × State
  api_geoip_delete_rule s (c0 ∷ c1 ∷ []) = unblock_key s (country_key c0 c1)
  api_geoip_delete_rule s _ = (respond 400 (codes "{\"error\":\"Invalid ID\"}"), s)

  module _ {J : Type 0} (json : JsonC J) where
    abbrev pub block_member : State → Option J → Response × State
    block_member s none = (respond 400 (codes "{\"error\":\"Missing country_code\"}"), s)
    block_member s (some country_code) = block_code s (json.get_string country_code)

    abbrev pub block_body : State → Option J → Response × State
    block_body s none = (respond 400 (codes "{\"error\":\"Invalid JSON\"}"), s)
    block_body s (some root) = block_member s (json.get_ex root (codes "country_code"))

    unfoldable pub api_geoip_add_rule : State → Option Text → Response × State
    api_geoip_add_rule s upload_data = block_body s (json.tokener_parse upload_data)
