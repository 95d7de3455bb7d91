-- ===== src/Api/Maps.antt =====
-- The updates of the packet filter's maps from user space, by bpf(2): the kernel's code, so each is
-- a parameter, and what it documents of a hash a hypothesis.
use cyrenus.Prelude.{none, ◌≢◌, some, ◌≡◌, Option, ℕ}
use cyrenus.Xdp.Types.{AttacksConfig, RuleKey, Rule}

-- bpf_map_update_elem(…, BPF_ANY) and bpf_map_delete_elem; `none` is a result other than 0.
pub record MapOps (K V : Type 0) : Type 0 where
  pub update : (K → Option V) → K → V → Option (K → Option V)
  pub delete : (K → Option V) → K → Option (K → Option V)

pub record Syscalls : Type 0 where
  pub rules : MapOps RuleKey Rule
  pub blocked_countries : MapOps ℕ ℕ
  pub config_map : MapOps ℕ AttacksConfig

-- An update that answers 0 has stored its entry, and a delete that does has removed it; the other
-- keys keep theirs. A delete fails if there is no entry.
pub record IsHash {K V : Type 0} (ops : MapOps K V) : Type 0 where
  pub updated : (m m' : K → Option V) (k : K) (v : V) → ops.update m k v ≡ some m' → m' k ≡ some v
  pub update_other :
      (m m' : K → Option V) (k j : K) (v : V) → ops.update m k v ≡ some m' → k ≢ j → m' j ≡ m j
  pub deleted : (m m' : K → Option V) (k : K) → ops.delete m k ≡ some m' → m' k ≡ none
  pub delete_other : (m m' : K → Option V) (k j : K) → ops.delete m k ≡ some m' → k ≢ j → m' j ≡ m j
