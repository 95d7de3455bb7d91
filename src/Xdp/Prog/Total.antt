-- ===== src/Xdp/Prog/Total.antt =====
-- Every read of `xdp_prog` is inside the frame.
use cyrenus.Prelude.{
  ◌>>=◌, ℕ, ◌+◌, ◌≤◌, ◌<◌, ◌≡◌, refl, Bool, true, false, Option, none, some, length, ltb, ◌==◌,
  if◌then◌else◌, arith, get_elem?-eq-some, not, swap16,
}
use cyrenus.Xdp.Types.{Action, drop, pass, tx, IpHdr, TcpHdr, UdpHdr, dns_port}
use cyrenus.Xdp.Fragment.{handle_fragment}
use cyrenus.Xdp.Rules.{check_geoip}
use cyrenus.Xdp.Bucket.{early_filter}
use cyrenus.Xdp.State.{State, Helpers}
use cyrenus.Xdp.Packet.{
  Packet, byte, half, word, read_iphdr, read_tcphdr, read_udphdr, read_icmphdr, Returns,
}
use cyrenus.Xdp.Syn.{check_syn_flood}
use cyrenus.Xdp.Dns.{check_dns_amplification}
use cyrenus.Xdp.Udp.{check_udp_flood}
use cyrenus.Xdp.Account.{account}
use cyrenus.Xdp.Prog.{
  tcp_checks, udp_checks, tcp_transport, udp_transport, icmp_transport, Verdict, then_check,
  tcp_case, udp_case, icmp_case, switch_proto, ip_stage, ip_frame, xdp_prog, eth_p_ip,
}

-- A chain returns if its first step does, and its rest on every value.
>>=-Returns {ℓ κ} :
    {A : Type ℓ} {B : Type κ} (o : Option A) (f : A → Option B)
    → Returns o
    → ((a : A) → Returns (f a))
    → Returns (o >>= f)
>>=-Returns none f (a, e) h = absurd (cc)
>>=-Returns (some a) f r h = h a

if-Returns {ℓ} :
    {A : Type ℓ} (b : Bool) (x y : Option A)
    → Returns x
    → (b ≡ false → Returns y)
    → Returns (if b then x else y)
if-Returns true x y r h = r
if-Returns false x y r h = h refl

some-Returns {ℓ} : {A : Type ℓ} (a : A) → Returns (some a)
some-Returns a = (a, refl)

byte-Returns : (p : Packet) (i : ℕ) → i < length p → Returns (byte p i)
byte-Returns p i h = get_elem?-eq-some p i h

half-Returns : (p : Packet) (i : ℕ) → i + 2 ≤ length p → Returns (half p i)
unfolding half
half-Returns p i h =
    >>=-Returns (byte p i) _ (byte-Returns p i (omega arith)) λ lo.
      >>=-Returns (byte p (i + 1)) _ (byte-Returns p (i + 1) (omega arith)) λ hi. some-Returns _

word-Returns : (p : Packet) (i : ℕ) → i + 4 ≤ length p → Returns (word p i)
unfolding word
word-Returns p i h =
    >>=-Returns (half p i) _ (half-Returns p i (omega arith)) λ lo.
      >>=-Returns (half p (i + 2)) _ (half-Returns p (i + 2) (omega arith)) λ hi. some-Returns _

read_iphdr-Returns : (p : Packet) (i : ℕ) → i + 20 ≤ length p → Returns (read_iphdr p i)
unfolding read_iphdr
read_iphdr-Returns p i h = >>=-Returns (byte p i) _ (byte-Returns p i (omega arith)) λ a.
    >>=-Returns (half p (i + 2)) _ (half-Returns p (i + 2) (omega arith)) λ b.
      >>=-Returns (half p (i + 6)) _ (half-Returns p (i + 6) (omega arith)) λ c.
        >>=-Returns (byte p (i + 8)) _ (byte-Returns p (i + 8) (omega arith)) λ d.
          >>=-Returns (byte p (i + 9)) _ (byte-Returns p (i + 9) (omega arith)) λ e.
            >>=-Returns (word p (i + 12)) _ (word-Returns p (i + 12) (omega arith)) λ f.
              >>=-Returns (word p (i + 16)) _ (word-Returns p (i + 16) (omega arith))
                λ g. some-Returns _

read_tcphdr-Returns : (p : Packet) (i : ℕ) → i + 20 ≤ length p → Returns (read_tcphdr p i)
unfolding read_tcphdr
read_tcphdr-Returns p i h = >>=-Returns (half p i) _ (half-Returns p i (omega arith)) λ a.
    >>=-Returns (half p (i + 2)) _ (half-Returns p (i + 2) (omega arith)) λ b.
      >>=-Returns (byte p (i + 12)) _ (byte-Returns p (i + 12) (omega arith)) λ c.
        >>=-Returns (byte p (i + 13)) _ (byte-Returns p (i + 13) (omega arith)) λ d. some-Returns _

read_udphdr-Returns : (p : Packet) (i : ℕ) → i + 8 ≤ length p → Returns (read_udphdr p i)
unfolding read_udphdr
read_udphdr-Returns p i h =
    >>=-Returns (half p i) _ (half-Returns p i (omega arith))
      λ a. >>=-Returns (half p (i + 2)) _ (half-Returns p (i + 2) (omega arith)) λ b. some-Returns _

read_icmphdr-Returns : (p : Packet) (i : ℕ) → i + 8 ≤ length p → Returns (read_icmphdr p i)
unfolding read_icmphdr
read_icmphdr-Returns p i h =
    >>=-Returns (byte p i) _ (byte-Returns p i (omega arith))
      λ a. >>=-Returns (byte p (i + 1)) _ (byte-Returns p (i + 1) (omega arith)) λ b. some-Returns _

then_check-Returns :
    (r : Action × State) (next : State → Verdict)
    → ((s : State) → Returns (next s))
    → Returns (then_check r next)
then_check-Returns (drop, s) next h = some-Returns _
then_check-Returns (pass, s) next h = h s
then_check-Returns (tx, s) next h = some-Returns _

fits : (a b : ℕ) → ltb a b ≡ false → b ≤ a
fits a b h = ground arith

tcp_checks-Returns :
    (h : Helpers) (s : State) (ip : IpHdr) (tcp : TcpHdr) → Returns (tcp_checks h s ip tcp)
unfolding tcp_checks
tcp_checks-Returns h s ip tcp =
    then_check-Returns (check_syn_flood h s ip tcp) _
      λ s'. some-Returns (account h s' ip (tcp_transport tcp))

udp_checks-Returns :
    (h : Helpers) (s : State) (ip : IpHdr) (udp : UdpHdr) → Returns (udp_checks h s ip udp)
unfolding udp_checks
udp_checks-Returns h s ip udp =
    then_check-Returns (check_dns_amplification h s ip udp (udp.source == swap16 dns_port)) _ λ s'.
      then_check-Returns (check_udp_flood h s' ip udp) _
        λ s''. some-Returns (account h s'' ip (udp_transport udp))

module _ (h : Helpers) (p : Packet) (ip : IpHdr) (l4 : ℕ) where
  tcp_case-Returns : (s : State) → Returns (tcp_case h s p ip l4)
  unfolding tcp_case
  tcp_case-Returns s = if-Returns (ltb (length p) (l4 + 20)) _ _ (some-Returns (pass, s)) λ e.
      >>=-Returns (read_tcphdr p l4) _ (read_tcphdr-Returns p l4 (fits _ _ e))
        (tcp_checks-Returns h s ip)

  udp_case-Returns : (s : State) → Returns (udp_case h s p ip l4)
  unfolding udp_case
  udp_case-Returns s = if-Returns (ltb (length p) (l4 + 8)) _ _ (some-Returns (pass, s)) λ e.
      >>=-Returns (read_udphdr p l4) _ (read_udphdr-Returns p l4 (fits _ _ e))
        (udp_checks-Returns h s ip)

  icmp_case-Returns : (s : State) → Returns (icmp_case h s p ip l4)
  unfolding icmp_case
  icmp_case-Returns s = if-Returns (ltb (length p) (l4 + 8)) _ _ (some-Returns (pass, s)) λ e.
      >>=-Returns (read_icmphdr p l4) _ (read_icmphdr-Returns p l4 (fits _ _ e))
        λ icmp. some-Returns (account h s ip (icmp_transport icmp))

switch_proto-Returns :
    (h : Helpers) (p : Packet) (ip : IpHdr) (s : State) → Returns (switch_proto h s p ip)
unfolding switch_proto
switch_proto-Returns h p ip s = if-Returns (ip.protocol == 6) _ _ (tcp_case-Returns h p ip _ s) λ a.
    if-Returns (ip.protocol == 17) _ _ (udp_case-Returns h p ip _ s)
      λ b. if-Returns (ip.protocol == 1) _ _ (icmp_case-Returns h p ip _ s) λ c. some-Returns _

ip_stage-Returns : (h : Helpers) (p : Packet) (ip : IpHdr) (s : State) → Returns (ip_stage h s p ip)
unfolding ip_stage
ip_stage-Returns h p ip s = then_check-Returns (handle_fragment h s ip) _ λ s'.
    then_check-Returns (check_geoip s' ip.saddr, s') _
      λ s''. then_check-Returns (early_filter h s'' ip ip.protocol) _ (switch_proto-Returns h p ip)

ip_frame-Returns : (h : Helpers) (s : State) (p : Packet) → Returns (ip_frame h s p)
unfolding ip_frame
ip_frame-Returns h s p = if-Returns (ltb (length p) 34) _ _ (some-Returns _) λ e.
    >>=-Returns (read_iphdr p 14) _ (read_iphdr-Returns p 14 (fits _ _ e))
      λ ip. ip_stage-Returns h p ip _

-- `xdp_prog` reads no byte outside the frame, whatever the frame and the maps: it has a verdict.
pub xdp_prog-Returns : (h : Helpers) (s : State) (p : Packet) → Returns (xdp_prog h s p)
unfolding xdp_prog
xdp_prog-Returns h s p = if-Returns (ltb (length p) 14) _ _ (some-Returns _) λ e.
    >>=-Returns (half p 12) _ (half-Returns p 12 (fits _ _ e)) λ h_proto.
      if-Returns (not (h_proto == swap16 eth_p_ip)) _ _ (some-Returns _) λ f. ip_frame-Returns h s p
