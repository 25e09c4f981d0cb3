-- ===== src/Linker/TargetMachine/Creates.antt =====
-- `create_target_machine` of linker.rs, described by what LLVM is asked for and what it answers.
use bpf_linker.Prelude.{
  ◌≡◌, ◌≢◌, refl, ◌||◌, inl, inr, Bool-cases, true, false, Option, none, some, arith, ◌==◌, Text,
  codes, starts_with, is_utf8, ◌⊎◌,
}
use bpf_linker.Outcome.{Outcome, ok, err, panic, Exec, lift, map_err, ◌>>=◌, ◌>>◌}
use bpf_linker.Types.Api.{Ref}
use bpf_linker.Types.Ir.{has_nul}
use bpf_linker.Llvm.Api.{ObjectApi}
use bpf_linker.Llvm.Message.{drop_message, fail_with}
use bpf_linker.Llvm.Target
use bpf_linker.Llvm.Target.{TargetApi, target_from_triple, target_from_module}
use bpf_linker.Linker.Options.{LinkerError, invalid_target, Cpu, generic, probe, v1, v2, v3}
use bpf_linker.Linker.Cpu.{to_str}
use bpf_linker.Linker.Modules.{ok_or}
use bpf_linker.Linker.TargetMachine.{or_invalid, select_target, create_target_machine}

-- The triple for what `--target` asks for and for the triple of the module.
pub data Selects (of_module : Text) : Option Text → Text → Type 0 where
  asked : (triple : Text) → has_nul triple ≡ false → Selects of_module (some triple) triple
  configured :
      is_utf8 of_module ≡ true
      → starts_with of_module (codes "bpf") ≡ true
      → Selects of_module none of_module
  default_bpf :
      is_utf8 of_module ≡ true
      → starts_with of_module (codes "bpf") ≡ false
      → Selects of_module none (codes "bpf")

-- There is no triple: the one of `--target` has a NUL byte, or the module's is not UTF-8.
pub data Unusable (of_module : Text) : Option Text → Type 0 where
  with_nul : (triple : Text) → has_nul triple ≡ true → Unusable of_module (some triple)
  no_text : is_utf8 of_module ≡ false → Unusable of_module none

module _ {L : Type 0} (objects : ObjectApi L) (api : TargetApi L) (module_ref : Ref) where
  -- How the machine for a triple comes about, or does not, by LLVM's answers from state `s` on: the
  -- code, the target and the message that a triple gets, and the machine for the target.
  pub data MachineFor (triple cpu features : Text) (s : L)
      : Outcome LinkerError Ref × L → Type 0 where
    made :
        (target message machine : Ref) (s1 s2 : L)
        → api.get_target_from_triple triple s ≡ ((0, target, message), s1)
        → (has_nul triple || has_nul features) ≡ false
        → api.create_target_machine target triple cpu features (drop_message objects message s1)
          ≡ (machine, s2)
        → machine ≢ 0
        → MachineFor triple cpu features s (ok machine, s2)
    no_machine :
        (target message : Ref) (s1 s2 : L)
        → api.get_target_from_triple triple s ≡ ((0, target, message), s1)
        → (has_nul triple || has_nul features) ≡ false
        → api.create_target_machine target triple cpu features (drop_message objects message s1)
          ≡ (0, s2)
        → MachineFor triple cpu features s (err (invalid_target triple), s2)
    nul_byte :
        (target message : Ref) (s1 : L)
        → api.get_target_from_triple triple s ≡ ((0, target, message), s1)
        → (has_nul triple || has_nul features) ≡ true
        → MachineFor triple cpu features s (panic, drop_message objects message s1)
    no_target :
        (code target message : Ref) (s1 : L)
        → api.get_target_from_triple triple s ≡ ((code, target, message), s1)
        → code ≢ 0
        → message ≢ 0
        → is_utf8 (objects.c_string s1 message) ≡ true
        → MachineFor triple cpu features s
            (err (invalid_target triple), objects.dispose_message message s1)
    no_message :
        (code target message : Ref) (s1 : L)
        → api.get_target_from_triple triple s ≡ ((code, target, message), s1)
        → code ≢ 0
        → (message ≡ 0) ⊎ (is_utf8 (objects.c_string s1 message) ≡ false)
        → MachineFor triple cpu features s (panic, s1)

  pub data Creates (target : Option Text) (cpu features : Text) (s : L)
      : Outcome LinkerError Ref × L → Type 0 where
    for_triple :
        (triple : Text) (r : Outcome LinkerError Ref × L)
        → Selects (api.get_target s module_ref) target triple
        → MachineFor triple cpu features s r
        → Creates target cpu features s r
    without :
        Unusable (api.get_target s module_ref) target → Creates target cpu features s (panic, s)

  -- What follows once the triple is known.
  abbrev machine_for : Text → Cpu → Text → Exec L LinkerError Ref
  machine_for triple cpu features = do
    selected ← or_invalid objects api module_ref triple (target_from_triple objects api triple)
    machine ← Target.create_target_machine objects api selected.1 selected.0 (to_str cpu) features
    lift (ok_or (invalid_target selected.0) machine)

  plain_cpu : (cpu : Cpu) → has_nul (to_str cpu) ≡ false
  unfolding to_str
  plain_cpu generic = refl
  plain_cpu probe = refl
  plain_cpu v1 = refl
  plain_cpu v2 = refl
  plain_cpu v3 = refl

  module _ (triple : Text) (cpu : Cpu) (features : Text) (s : L) where
    abbrev code : Ref
    code = (api.get_target_from_triple triple s).0.0

    abbrev target : Ref
    target = (api.get_target_from_triple triple s).0.1

    abbrev message : Ref
    message = (api.get_target_from_triple triple s).0.2

    abbrev s1 : L
    s1 = (api.get_target_from_triple triple s).1

    abbrev asked_machine : Ref × L
    asked_machine =
        api.create_target_machine target triple (to_str cpu) features
          (drop_message objects message s1)

    found : code ≡ 0 → api.get_target_from_triple triple s ≡ ((0, target, message), s1)
    found e i = ((e i, target, message), s1)

    machine_for-found :
        code ≡ 0 → MachineFor triple (to_str cpu) features s (machine_for triple cpu features s)
    unfolding or_invalid target_from_triple Target.create_target_machine map_err ◌>>=◌ ◌>>◌
    machine_for-found e =
        let test : (code == 0) ≡ true = ground arith in
        elim (Bool-cases (has_nul triple || has_nul features)) [
          | inl nul ↦
              let nul' : (has_nul triple || (has_nul (to_str cpu) || has_nul features)) ≡ true =
                rw (plain_cpu cpu) nul in
              rw (test, nul') (nul_byte target message s1 (found e) nul)
          | inr plain ↦
              let plain' : (has_nul triple || (has_nul (to_str cpu) || has_nul features)) ≡ false =
                rw (plain_cpu cpu) plain in
              elim (Bool-cases (asked_machine.0 == 0)) [
                | inl null ↦
                    let null' : asked_machine.0 ≡ 0 = ground arith in
                    rw (test, plain', null)
                      (no_machine target message s1 asked_machine.1 (found e) plain
                        (λ i. (null' i, asked_machine.1)))
                | inr there ↦
                    rw (test, plain', there)
                      (made target message asked_machine.0 s1 asked_machine.1 (found e) plain refl
                        (λ z. absurd (ground (arith, z, there))))
              ]
        ]

    machine_for-missing :
        (code == 0) ≡ false
        → MachineFor triple (to_str cpu) features s (machine_for triple cpu features s)
    unfolding or_invalid target_from_triple fail_with map_err ◌>>=◌ ◌>>◌
    machine_for-missing test =
        let other : code ≢ 0 = λ z. absurd (ground (arith, z, test)) in
        elim (Bool-cases (message == 0)) [
          | inl null ↦
              rw (test, null) (no_message code target message s1 refl other (inl (ground arith)))
          | inr there ↦ elim (Bool-cases (is_utf8 (objects.c_string s1 message))) [
            | inl text ↦
                rw (test, there, text, there)
                  (no_target code target message s1 refl other
                    (λ z. absurd (ground (arith, z, there))) text)
            | inr bytes ↦
                rw (test, there, bytes) (no_message code target message s1 refl other (inr bytes))
          ]
        ]

    machine_for-MachineFor :
        MachineFor triple (to_str cpu) features s (machine_for triple cpu features s)
    machine_for-MachineFor = elim (Bool-cases (code == 0)) [
      | inl e ↦ machine_for-found (ground arith)
      | inr e ↦ machine_for-missing e
    ]

  -- `create_target_machine` on every branch, by LLVM's answers. The triple is the one that
  -- `--target` asks for, or else the module's if it begins with `bpf`, or else `bpf`; the target is
  -- looked up by it and the machine is made for this target, this triple, the processor's name and
  -- the features. Where LLVM has no such target or machine, the error is `InvalidTarget` with this
  -- triple. It panics on a NUL byte in the triple or the features, on a triple of the module that is
  -- not UTF-8, and where LLVM has no target and its message is missing or not UTF-8.
  pub create_target_machine-Creates :
      (target : Option Text) (cpu : Cpu) (features : Text) (s : L)
      → Creates target
          (to_str cpu)
          features
          s
          (create_target_machine objects api module_ref target cpu features s)
  unfolding create_target_machine select_target target_from_module or_invalid map_err ◌>>=◌
  create_target_machine-Creates (some triple) cpu features s = elim (Bool-cases (has_nul triple)) [
    | inl nul ↦ rw nul (without (with_nul triple nul))
    | inr plain ↦
        rw plain
          (for_triple triple _ (asked triple plain) (machine_for-MachineFor triple cpu features s))
  ]
  create_target_machine-Creates none cpu features s =
      let m = api.get_target s module_ref in
      elim (Bool-cases (is_utf8 m)) [
        | inr bytes ↦ rw bytes (without (no_text bytes))
        | inl text ↦ elim (Bool-cases (starts_with m (codes "bpf"))) [
          | inl bpf ↦
              rw (text, bpf)
                (for_triple m _ (configured text bpf) (machine_for-MachineFor m cpu features s))
          | inr host ↦
              rw (text, host)
                (for_triple (codes "bpf") _ (default_bpf text host)
                  (machine_for-MachineFor (codes "bpf") cpu features s))
        ]
      ]
