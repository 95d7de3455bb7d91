-- ===== src/Xdp/Types.antt =====
-- The data of ebpf/xdp_prog.c and include/common.h: actions, map values, keys and headers.
-- A field holds the number that the C field holds, in the byte order that it has in memory.
use cyrenus.Prelude.{ℕ}

-- The verdicts of the kernel that the program returns: XDP_DROP, XDP_PASS, XDP_TX.
pub data Action : Type 0 where
  drop pass tx : Action

pub record AttacksConfig : Type 0 where
  pub syn_flood_rate : ℕ
  pub udp_flood_rate : ℕ
  pub icmp_flood_rate : ℕ
  pub dns_amp_rate : ℕ
  pub max_frags : ℕ

-- `attack_type` and `padding`, which the program only zeroes, are left out.
pub record AttackInfo : Type 0 where
  pub timestamp : ℕ
  pub src_ip : ℕ
  pub protocol : ℕ
  pub packets : ℕ
  pub bytes : ℕ

pub record GlobalStats : Type 0 where
  pub total_packets : ℕ
  pub total_bytes : ℕ

pub record TokenBucket : Type 0 where
  pub last_update : ℕ
  pub tokens : ℕ

pub record SynFloodInfo : Type 0 where
  pub last_update : ℕ
  pub syn_count : ℕ
  pub synack_count : ℕ

pub record DnsInfo : Type 0 where
  pub last_update : ℕ
  pub packet_count : ℕ
  pub total_size : ℕ

pub record FragInfo : Type 0 where
  pub last_update : ℕ
  pub frag_count : ℕ

pub record UdpFloodInfo : Type 0 where
  pub last_update : ℕ
  pub packet_count : ℕ
  pub byte_count : ℕ

pub record RuleKey : Type 0 where
  pub ip : ℕ
  pub port : ℕ
  pub proto : ℕ

pub record Rule : Type 0 where
  pub port_start : ℕ
  pub port_end : ℕ
  pub proto : ℕ
  pub action : ℕ

pub record GeoipKey : Type 0 where
  pub prefixlen : ℕ
  pub ip : ℕ

-- `pad` is zero in every key that the program builds.
pub record FlowKey : Type 0 where
  pub src_ip : ℕ
  pub dst_ip : ℕ
  pub src_port : ℕ
  pub dst_port : ℕ
  pub proto : ℕ

pub record TrafficInfo : Type 0 where
  pub src_ip : ℕ
  pub dst_ip : ℕ
  pub src_port : ℕ
  pub dst_port : ℕ
  pub timestamp : ℕ
  pub direction : ℕ
  pub host_ip : ℕ
  pub proto : ℕ
  pub bytes : ℕ
  pub packets : ℕ
  pub flow_start_time : ℕ
  pub flow_end_time : ℕ
  pub fwd_packets : ℕ
  pub bwd_packets : ℕ
  pub fwd_bytes : ℕ
  pub bwd_bytes : ℕ
  pub fwd_header_length : ℕ
  pub bwd_header_length : ℕ
  pub min_packet_length : ℕ
  pub max_packet_length : ℕ
  pub fwd_packet_length_max : ℕ
  pub fwd_packet_length_min : ℕ
  pub fwd_packet_length_sum : ℕ
  pub bwd_packet_length_max : ℕ
  pub bwd_packet_length_min : ℕ
  pub bwd_packet_length_sum : ℕ
  pub iat_sum : ℕ
  pub fwd_iat_sum : ℕ
  pub bwd_iat_sum : ℕ
  pub fin_count : ℕ
  pub syn_count : ℕ
  pub rst_count : ℕ
  pub psh_count : ℕ
  pub ack_count : ℕ
  pub urg_count : ℕ
  pub cwe_count : ℕ
  pub ece_count : ℕ

-- What the program reads of `struct iphdr`. The 16-bit and 32-bit fields are in network order.
pub record IpHdr : Type 0 where
  pub ihl : ℕ
  pub tot_len : ℕ
  pub frag_off : ℕ
  pub ttl : ℕ
  pub protocol : ℕ
  pub saddr : ℕ
  pub daddr : ℕ

-- `flags` is byte 13, of which `syn` is bit 1 and `ack` is bit 4.
pub record TcpHdr : Type 0 where
  pub source : ℕ
  pub dest : ℕ
  pub doff : ℕ
  pub flags : ℕ

pub record UdpHdr : Type 0 where
  pub source : ℕ
  pub dest : ℕ

pub record IcmpHdr : Type 0 where
  pub type : ℕ
  pub code : ℕ

abbrev pub ipproto_icmp : ℕ
ipproto_icmp = 1

abbrev pub ipproto_tcp : ℕ
ipproto_tcp = 6

abbrev pub ipproto_udp : ℕ
ipproto_udp = 17

abbrev pub max_attacks : ℕ
max_attacks = 1000

abbrev pub udp_flood_burst : ℕ
udp_flood_burst = 200

abbrev pub frag_timeout : ℕ
frag_timeout = 30000000000

abbrev pub dns_port : ℕ
dns_port = 53

abbrev pub max_dns_response_size : ℕ
max_dns_response_size = 512

abbrev pub tokens_per_second : ℕ
tokens_per_second = 1000

abbrev pub max_tokens : ℕ
max_tokens = 1000
