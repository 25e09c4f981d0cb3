-- ===== src/Linker/Cpu.antt =====
-- `Cpu::to_str` and `Cpu::from_str` of linker.rs.
use bpf_linker.Prelude.{
  ◌≡◌, refl, sym, subst, ◌↔◌, arith, Text, codes, text_eq, text_eq_iff, if◌then◌else◌,
}
use bpf_linker.Outcome.{Outcome, ok, err}
use bpf_linker.Linker.Options.{LinkerError, invalid_cpu, Cpu, generic, probe, v1, v2, v3}

unfoldable pub to_str : Cpu → Text
to_str generic = codes "generic"
to_str probe = codes "probe"
to_str v1 = codes "v1"
to_str v2 = codes "v2"
to_str v3 = codes "v3"

unfoldable pub from_str : Text → Outcome LinkerError Cpu
from_str s =
    if text_eq s (codes "generic")
    then ok generic
    else if text_eq s (codes "probe")
    then ok probe
    else if text_eq s (codes "v1")
    then ok v1
    else if text_eq s (codes "v2")
    then ok v2
    else if text_eq s (codes "v3")
    then ok v3
    else err (invalid_cpu s)

-- The names read back.
from_str-to_str : (c : Cpu) → from_str (to_str c) ≡ ok c
unfolding from_str to_str
from_str-to_str generic = refl
from_str-to_str probe = refl
from_str-to_str v1 = refl
from_str-to_str v2 = refl
from_str-to_str v3 = refl

to_str-from_str : (s : Text) (c : Cpu) → from_str s ≡ ok c → s ≡ to_str c
unfolding from_str to_str
to_str-from_str s c h = ground (
  arith,
  text_eq_iff s (codes "generic"),
  text_eq_iff s (codes "probe"),
  text_eq_iff s (codes "v1"),
  text_eq_iff s (codes "v2"),
  text_eq_iff s (codes "v3"),
)

-- A text is read as a processor exactly if it is that processor's name.
pub from_str_iff : (s : Text) (c : Cpu) → (from_str s ≡ ok c) ↔ (s ≡ to_str c)
from_str_iff s c =
    (to_str-from_str s c, λ e. subst (λ t. from_str t ≡ ok c) (sym e) (from_str-to_str c))
