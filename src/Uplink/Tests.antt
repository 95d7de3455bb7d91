-- ===== src/Uplink/Tests.antt =====
-- Tests of the uplink, and its theorems at concrete inputs.
use cyrenus.Xdp.Prog.Drops.{HasHeader}
use cyrenus.Xdp.Prog.{xdp_prog}
use cyrenus.Uplink.{global_rule, global_key, apply_global_block}
use cyrenus.Xdp.State.{State}
use cyrenus.Api.Samples.{rules-IsHash, rule_key_eq, kernel, one_address}
use cyrenus.Uplink.Block.{apply_global_block-drops, AllDrop}
use cyrenus.Xdp.Packet.{read_iphdr, word, half}
use cyrenus.Xdp.Types.{Rule, IpHdr, RuleKey, Action, drop}
use cyrenus.Xdp.Samples.{syn_frame, plain, boot}
use cyrenus.Prelude.{none, some, ◌≡◌, refl, codes, if◌then◌else◌, true, Option, arith}

-- The header of the sample frame.
abbrev source_ip : IpHdr
source_ip = record {
  ihl = 5;
  tot_len = 10240;
  frag_off = 0;
  ttl = 64;
  protocol = 6;
  saddr = 0x0100_000a;
  daddr = 0x0200_000a;
}

has_header : HasHeader syn_frame source_ip
unfolding half word read_iphdr
has_header = record { size = omega arith; type = refl; header = refl }

-- The only rule, after the block of 10.0.0.1.
abbrev only_block : RuleKey → Option Rule
only_block j = if rule_key_eq (global_key 0x0100_000a) j then some global_rule else none

no_rules : AllDrop (boot 5) 0x0100_000a 6
unfolding AllDrop
no_rules port r e = absurd (cc)

apply_global_block-drops_example :
    (r : Action × State) × (xdp_prog plain
        (apply_global_block one_address kernel true (boot 5) (codes "10.0.0.1"))
        syn_frame
      ≡ some r)
    × (r.0 ≡ drop)
apply_global_block-drops_example =
    apply_global_block-drops one_address kernel plain (boot 5) (codes "10.0.0.1") only_block
      syn_frame source_ip rules-IsHash refl refl no_rules has_header refl (omega arith)
