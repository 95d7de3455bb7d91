-- ===== src/Xdp/Untouched.antt =====
-- The maps that user space writes, the global counters among them: the checks leave them alone.
use cyrenus.Xdp.Attack.{update_attack_info}
use cyrenus.Xdp.Rules.{check_geoip}
use cyrenus.Xdp.Bucket.{icmp_limit, early_filter}
use cyrenus.Xdp.Udp.{check_udp_flood}
use cyrenus.Xdp.Dns.{check_dns_amplification}
use cyrenus.Xdp.Syn.{check_syn_flood}
use cyrenus.Xdp.Fragment.{handle_fragment}
use cyrenus.Xdp.Types.{drop, TcpHdr, UdpHdr, pass, Action, IpHdr}
use cyrenus.Xdp.State.{State, Helpers}
use cyrenus.Prelude.{Bool, ◌⊎◌, ◌≡◌, arith, ℕ}

pub record Untouched (s s' : State) : Type 0 where
  pub rules : s'.rules ≡ s.rules
  pub geoip_map : s'.geoip_map ≡ s.geoip_map
  pub blocked_countries : s'.blocked_countries ≡ s.blocked_countries
  pub config_map : s'.config_map ≡ s.config_map
  pub host_ip : s'.host_ip ≡ s.host_ip
  pub global_stats : s'.global_stats ≡ s.global_stats

pub Untouched-refl : (s : State) → Untouched s s
Untouched-refl s = ground arith

pub Untouched-trans : (s t u : State) → Untouched s t → Untouched t u → Untouched s u
Untouched-trans s t u a b = ground arith

-- A check has no third verdict, and leaves those maps alone.
pub record IsCheck (s : State) (r : Action × State) : Type 0 where
  pub verdict : (r.0 ≡ pass) ⊎ (r.0 ≡ drop)
  pub untouched : Untouched s r.1

module _ (h : Helpers) (s : State) (ip : IpHdr) where
  pub handle_fragment-IsCheck : IsCheck s (handle_fragment h s ip)
  unfolding handle_fragment
  handle_fragment-IsCheck = ground arith

  pub check_syn_flood-IsCheck : (tcp : TcpHdr) → IsCheck s (check_syn_flood h s ip tcp)
  unfolding check_syn_flood
  check_syn_flood-IsCheck tcp = ground arith

  pub check_dns_amplification-IsCheck :
      (udp : UdpHdr) (is_response : Bool)
      → IsCheck s (check_dns_amplification h s ip udp is_response)
  unfolding check_dns_amplification
  check_dns_amplification-IsCheck udp is_response = ground arith

  pub check_udp_flood-IsCheck : (udp : UdpHdr) → IsCheck s (check_udp_flood h s ip udp)
  unfolding check_udp_flood update_attack_info
  check_udp_flood-IsCheck udp = ground arith

  pub early_filter-IsCheck : (proto : ℕ) → IsCheck s (early_filter h s ip proto)
  unfolding early_filter icmp_limit
  early_filter-IsCheck proto = ground arith

  pub check_geoip-IsCheck : IsCheck s (check_geoip s ip.saddr, s)
  unfolding check_geoip
  check_geoip-IsCheck = ground arith
