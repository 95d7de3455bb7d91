-- ===== src/Xdp/Fragment/Window.antt =====
-- The fragments of a source that follow one another within the timeout, as `handle_fragment`
-- counts them.
use cyrenus.Xdp.Config.{get_config}
use cyrenus.Xdp.Clock.{sub64-eq_sub, last_time, at, Gaps}
use cyrenus.Xdp.Types.{drop, frag_timeout, FragInfo, IpHdr}
use cyrenus.Xdp.Fragment.{fragment_shape, is_fragment, handle_fragment}
use cyrenus.Xdp.State.{State, Helpers}
use cyrenus.Prelude.{
  ltb, if◌then◌else◌, arith, length, u32, add32, ◌+◌, ◌^◌, ◌≤◌, ◌<◌, true, [], ◌∷◌, some, ◌≡◌, List,
  ℕ,
}

-- Fragments of one source.
abbrev pub FromFragments : ℕ → List (ℕ × IpHdr) → Type 0
FromFragments src [] = Unit {0}
FromFragments src ((time, ip) ∷ rest) =
    (ip.saddr ≡ src) × (is_fragment ip ≡ true) × FromFragments src rest

pub fragment_run : Helpers → State → List (ℕ × IpHdr) → State
fragment_run h s [] = s
fragment_run h s ((time, ip) ∷ rest) = fragment_run h (handle_fragment h (at s time) ip).1 rest

handle_fragment-step :
    (h : Helpers) (s : State) (time src : ℕ) (ip : IpHdr) (info : FragInfo)
    → s.frag_track_map src ≡ some info
    → ip.saddr ≡ src
    → is_fragment ip ≡ true
    → info.last_update ≤ time
    → time ≤ info.last_update + frag_timeout
    → time < 2 ^ 64
    → let (verdict, s') = handle_fragment h (at s time) ip in
      let count = add32 info.frag_count 1 in
      (verdict ≡ (if ltb (get_config s).max_frags count then drop else fragment_shape ip))
      × (s'.frag_track_map src ≡ some (record { last_update = time; frag_count = count }))
      × (s'.config_map ≡ s.config_map)
unfolding handle_fragment
handle_fragment-step h s time src ip info e i f a b c =
    ground (arith, sub64-eq_sub time info.last_update)

-- The entry of a source after fragments in close order.
fragment_run-entry :
    (h : Helpers) (s : State) (src : ℕ) (pkts : List (ℕ × IpHdr)) (info : FragInfo)
    → s.frag_track_map src ≡ some info
    → FromFragments src pkts
    → Gaps frag_timeout info.last_update pkts
    → info.frag_count < 2 ^ 32
    → ((fragment_run h s pkts).frag_track_map src
        ≡ some (record {
          last_update = last_time info.last_update pkts;
          frag_count = u32 (info.frag_count + length pkts);
        }))
      × ((fragment_run h s pkts).config_map ≡ s.config_map)
unfolding fragment_run
fragment_run-entry h s src [] info e f w a = ground arith
fragment_run-entry h s src ((time, ip) ∷ rest) info e f w a = ground (
  arith,
  handle_fragment-step h s time src ip info e f.0 f.1 w.0 w.1 w.2,
  fragment_run-entry h (handle_fragment h (at s time) ip).1 src rest
      (record { last_update = time; frag_count = add32 info.frag_count 1 }),
)

-- A fragment of a source that comes at most 30 s after its last one, itself the end of any row of
-- fragments in such order, is dropped exactly if the fragments counted are more than the configured
-- number, or if its own shape is refused. This holds while the counter does not wrap.
pub fragment_run-verdict :
    (h : Helpers) (s : State) (src : ℕ) (pkts : List (ℕ × IpHdr)) (info : FragInfo) (time : ℕ)
    (ip : IpHdr)
    → s.frag_track_map src ≡ some info
    → FromFragments src pkts
    → Gaps frag_timeout info.last_update pkts
    → ip.saddr ≡ src
    → is_fragment ip ≡ true
    → last_time info.last_update pkts ≤ time
    → time ≤ last_time info.last_update pkts + frag_timeout
    → time < 2 ^ 64
    → info.frag_count + length pkts + 1 < 2 ^ 32
    → (handle_fragment h (at (fragment_run h s pkts) time) ip).0 ≡ (
        if ltb (get_config s).max_frags (info.frag_count + length pkts + 1)
        then drop
        else fragment_shape ip)
fragment_run-verdict h s src pkts info time ip e f w i g a b k m =
    let ran = fragment_run-entry h s src pkts info e f w (omega arith) in
    let entry : FragInfo = record {
      last_update = last_time info.last_update pkts;
      frag_count = u32 (info.frag_count + length pkts);
    } in
    let step = handle_fragment-step h (fragment_run h s pkts) time src ip entry ran.0 i g a b k in
    rw (step.0, ran.1) (ground arith)
