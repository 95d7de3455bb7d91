-- ===== src/Api/Countries/Blocked.antt =====
-- A country that is blocked is one whose packets the filter drops, until it is unblocked.
use cyrenus.Xdp.Types.{drop, pass}
use cyrenus.Xdp.State.{State}
use cyrenus.Xdp.Rules.{geoip_key, check_geoip}
use cyrenus.Api.Maps.{IsHash, Syscalls}
use cyrenus.Api.Json.{JsonC}
use cyrenus.Api.Countries.{api_geoip_delete_rule, country_key}
use cyrenus.Prelude.{◌==◌, refl, [], if◌then◌else◌, ◌∷◌, codes, none, some, Text, Option, ◌≡◌, ℕ}

module _ {J : Type 0} (json : JsonC J) (bpf : Syscalls) where
  -- The body of the request is JSON with a code of two bytes.
  pub record NamesCountry (upload_data : Option Text) (c0 c1 : ℕ) : Type 0 where
    pub root : J
    pub country_code : J
    pub parsed : json.tokener_parse upload_data ≡ some root
    pub has_code : json.get_ex root (codes "country_code") ≡ some country_code
    pub is_code : json.get_string country_code ≡ c0 ∷ c1 ∷ []

  found_country :
      (s : State) (ip : ℕ) (country : ℕ) (o : Option ℕ)
      → s.geoip_map (geoip_key ip) ≡ some country
      → s.blocked_countries country ≡ o
      → check_geoip s ip
        ≡ (elim o [ none ↦ pass | some action ↦ if action == 1 then drop else pass ])
  unfolding check_geoip
  found_country s ip country o e f = rw e (rw f refl)

  -- After a country is unblocked, where the kernel removes its entry, the answer is 200 and an address
  -- that the filter's table has in the country passes the check of the countries.
  pub api_geoip_delete_rule-unblocked :
      (s : State) (c0 c1 : ℕ) (m : ℕ → Option ℕ) (ip : ℕ)
      → IsHash bpf.blocked_countries
      → bpf.blocked_countries.delete s.blocked_countries (country_key c0 c1) ≡ some m
      → s.geoip_map (geoip_key ip) ≡ some (country_key c0 c1)
      → let deleted = api_geoip_delete_rule bpf s (c0 ∷ c1 ∷ []) in
        (deleted.0.status ≡ 200) × (check_geoip deleted.1 ip ≡ pass)
  unfolding api_geoip_delete_rule
  api_geoip_delete_rule-unblocked s c0 c1 m ip h e g = rw e (
    refl,
    found_country (record s { blocked_countries = m }) ip (country_key c0 c1) none g
        (h.deleted s.blocked_countries m (country_key c0 c1) e),
  )
