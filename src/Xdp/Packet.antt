-- ===== src/Xdp/Packet.antt =====
-- The bytes of a frame, and the headers that ebpf/xdp_prog.c reads from them (little-endian
-- target). A read past the end is `none`, for which the program has no meaning.
use cyrenus.Prelude.{◌>>=◌, ℕ, ◌+◌, ◌*◌, ◌/◌, ◌%◌, ◌^◌, ◌≡◌, Option, some, List, get_elem?}
use cyrenus.Xdp.Types.{IpHdr, TcpHdr, UdpHdr, IcmpHdr}

abbrev pub Packet : Type 0
Packet = List ℕ

abbrev pub byte : Packet → ℕ → Option ℕ
byte p i = get_elem? p i

unfoldable pub half : Packet → ℕ → Option ℕ
half p i = do lo ← byte p i; hi ← byte p (i + 1); some (lo + hi * 2 ^ 8)

unfoldable pub word : Packet → ℕ → Option ℕ
word p i = do lo ← half p i; hi ← half p (i + 2); some (lo + hi * 2 ^ 16)

unfoldable pub read_iphdr : Packet → ℕ → Option IpHdr
unfolding half word
read_iphdr p i = do
  version_ihl ← byte p i
  tot_len ← half p (i + 2)
  frag_off ← half p (i + 6)
  ttl ← byte p (i + 8)
  protocol ← byte p (i + 9)
  saddr ← word p (i + 12)
  daddr ← word p (i + 16)
  some (record {
    ihl = version_ihl % 2 ^ 4;
    tot_len = tot_len;
    frag_off = frag_off;
    ttl = ttl;
    protocol = protocol;
    saddr = saddr;
    daddr = daddr;
  })

unfoldable pub read_tcphdr : Packet → ℕ → Option TcpHdr
unfolding half
read_tcphdr p i = do
  source ← half p i
  dest ← half p (i + 2)
  res_doff ← byte p (i + 12)
  flags ← byte p (i + 13)
  some (record { source = source; dest = dest; doff = res_doff / 2 ^ 4; flags = flags })

unfoldable pub read_udphdr : Packet → ℕ → Option UdpHdr
unfolding half
read_udphdr p i = do
  source ← half p i
  dest ← half p (i + 2)
  some (record { source = source; dest = dest })

unfoldable pub read_icmphdr : Packet → ℕ → Option IcmpHdr
read_icmphdr p i = do
  type ← byte p i
  code ← byte p (i + 1)
  some (record { type = type; code = code })

-- Whether a result is there.
abbrev pub Returns {ℓ} : {A : Type ℓ} → Option A → Type ℓ
Returns {A} o = (a : A) × (o ≡ some a)
