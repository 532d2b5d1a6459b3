-- ===== src/Vm/Invariant/Loop.antt =====
-- `vm_step` and `vm_interpreter_loop` (kernel/vm/vm_core.c) keep a machine well formed.
use xhopin.Base.{
  ℕ, zero, suc, ◌/◌, ◌^◌, ◌≡◌, ◌∙◌, Bool, true, false, some, arith, ltb, get_elem?,
  get_elem?-set_self, length, Run, Post, Post-bind, Post-if, Post-and, Post-mono, Bool-cases, inl,
  inr, if◌then◌else◌, ap,
}
use xhopin.Word.{add32, read_word}
use xhopin.Vm.{Vm, running, error}
use xhopin.Vm.Opcode.{plain, vcall, illegal, Label, label_of}
use xhopin.Vm.Reg
use xhopin.Vm.Step.{
  Instr, Flow, next, jumped, leave, set_reg, execute, finish, is_running, decode, step, perform,
  step_loop, interpreter_loop,
}
use xhopin.Vm.Invariant.{
  IsWord, IsSound, IsValid, SameObject, SameObject-refl, Kept, set_reg-Kept, pc-Kept, fail-Kept,
  read_word-IsWord,
}
use xhopin.Vm.Invariant.Execute.{FlowKept, IsSmall, decode-IsSmall, execute-Kept}

-- The same machine, well formed.
abbrev pub Preserved : Vm → Vm → Type 0
Preserved vm vm' = IsValid vm' × SameObject vm vm'

SameObject-trans : {a b c : Vm} → SameObject a b → SameObject b c → SameObject a c
SameObject-trans h k = ground arith

zero_set : (b : Vm) → IsSound b → Post (λ v. get_elem? v.gp 0 ≡ some 0) (set_reg b Reg.zero 0)
unfolding set_reg
zero_set b h =
    Post-if (λ v. get_elem? v.gp 0 ≡ some 0) (ltb 0 (length b.gp)) _ _
      (λ e. get_elem?-set_self b.gp 0 0 (ground arith)) (λ e. tt)

-- Clearing register zero makes a sound machine valid.
clear_zero : (a b : Vm) → Kept a b → Post (Preserved a) (set_reg b Reg.zero 0)
clear_zero a b (h, o) =
    Post-mono (λ v. Kept b v × (get_elem? v.gp 0 ≡ some 0)) (Preserved a) (set_reg b Reg.zero 0)
      (Post-and (Kept b) (λ v. get_elem? v.gp 0 ≡ some 0) (set_reg b Reg.zero 0)
        (set_reg-Kept b h Reg.zero 0 (omega arith)) (zero_set b h))
      (λ v k. (record { sound = k.0.0; zero_reg = k.1 }, SameObject-trans o k.0.1))

advance-Kept :
    (a v : Vm) (b : Bool) → Kept a v → Kept a (if b then record v { pc = add32 v.pc 4 } else v)
advance-Kept a v true (h, o) = ((pc-Kept v h (add32 v.pc 4) (omega arith)).0, ground arith)
advance-Kept a v false k = k

finish-Preserved :
    (vm : Vm) (f : Flow) → IsValid vm → FlowKept vm f → Post (Preserved vm) (finish f)
unfolding finish
finish-Preserved vm (next v) h k = clear_zero vm _ (advance-Kept vm v (is_running v.state) k)
finish-Preserved vm (jumped v) h k = clear_zero vm v k
finish-Preserved vm (leave v) h k =
    (record { sound = k.0.0; zero_reg = ap (λ g. get_elem? g 0) k.1 ∙ h.zero_reg }, k.0.1)

-- A system call returns a word and leaves its caller well formed.
abbrev pub Answered {ℓ} : {K : Type ℓ} → Vm → ℕ × Vm × K → Type 0
Answered vm (r, vm', k) = IsWord r × Preserved vm vm'

module _ {ℓ} {K : Type ℓ} (dispatch : Vm → K → Run (ℕ × Vm × K))
    (answers : (vm : Vm) (k : K) → IsValid vm → Post (Answered vm) (dispatch vm k)) where
  abbrev pub After : Vm → Vm × K → Type 0
  After vm (vm', k) = Preserved vm vm'

  -- A failure that the code answers by the state ERROR.
  failed : (vm : Vm) → IsValid vm → Preserved vm (record vm { state = error })
  failed vm h = ground (arith, fail-Kept vm h.sound)

  perform-Preserved :
      (l : Label) (i : Instr) (vm : Vm) (k : K)
      → IsSmall i
      → IsValid vm
      → Post (After vm) (perform dispatch l i vm k)
  unfolding perform
  perform-Preserved (plain op) i vm k small h =
      Post-bind (FlowKept vm) (After vm) (execute op i vm) _ (execute-Kept vm h.sound i small op)
        λ f kept.
          Post-bind (Preserved vm) (After vm) (finish f) _ (finish-Preserved vm f h kept) λ v p. p
  perform-Preserved vcall i vm k small h =
      Post-bind (Answered vm) (After vm) (dispatch vm k) _ (answers vm k h) λ (r, v, k') (w, p).
        Post-bind (Kept v) (After vm) (set_reg v Reg.k0 r) _ (set_reg-Kept v p.0.sound Reg.k0 r w)
          λ u q.
            Post-bind (Preserved v) (After vm) (finish (next u)) _
              (finish-Preserved v (next u) p.0 q) λ x y. (y.0, SameObject-trans p.1 y.1)
  perform-Preserved illegal i vm k small h = failed vm h

  -- If one step of a well-formed machine returns, that is, does not leave its objects, the machine
  -- is well formed after it, and neither its code, nor the extent of its RAM, nor its rights have
  -- changed, provided that a system call answers with a word and keeps its caller so too.
  pub step-IsValid : (vm : Vm) (k : K) → IsValid vm → Post (After vm) (step dispatch vm k)
  unfolding step
  step-IsValid vm k h =
      Post-if (After vm) (is_running vm.state) _ _
        (λ e.
          Post-if (After vm) (ltb vm.code_size (add32 vm.pc 4)) _ _ (λ t. failed vm h)
            (λ t.
              Post-bind IsWord (After vm) (read_word vm.code vm.pc) _
                (read_word-IsWord vm.code vm.pc h.sound.code_bytes)
                λ w b.
                  perform-Preserved (label_of (w / 2 ^ 24)) (decode w) vm k (decode-IsSmall w) h))
        (λ e. (h, SameObject-refl vm))

  -- The end of the loop.
  abbrev pub Stopped : Vm → Vm × K → Type 0
  Stopped vm (vm', k) = Preserved vm vm' × (is_running vm'.state ≡ false)

  step_loop-Stopped :
      (n : ℕ) (vm : Vm) (k : K) → IsValid vm → Post (Stopped vm) (step_loop dispatch n vm k)
  unfolding step_loop
  step_loop-Stopped zero vm k h = tt
  step_loop-Stopped (suc n) vm k h = elim (Bool-cases (is_running vm.state)) [
    | inl e ↦
        rw (e, Post)
          (Post-bind (After vm) (Stopped vm) (step dispatch vm k) _ (step-IsValid vm k h)
            λ (v, k') p.
              Post-mono (Stopped v) (Stopped vm) (step_loop dispatch n v k')
                (step_loop-Stopped n v k' p.0)
                λ (x, y) q. ((q.0.0, SameObject-trans p.1 q.0.1), q.1))
    | inr e ↦ rw (e, Post) ((h, SameObject-refl vm), e)
  ]

  -- When the interpreter loop returns, the machine is well formed and not RUNNING, and neither its
  -- code, nor the extent of its RAM, nor its rights have changed, if it was well formed at the
  -- start and a system call answers with a word and keeps its caller so.
  pub interpreter_loop-Stopped :
      (n : ℕ) (vm : Vm) (k : K) → IsValid vm → Post (Stopped vm) (interpreter_loop dispatch n vm k)
  unfolding interpreter_loop
  interpreter_loop-Stopped n vm k h =
      Post-mono (Stopped (record vm { state = running })) (Stopped vm)
        (step_loop dispatch n (record vm { state = running }) k)
        (step_loop-Stopped n (record vm { state = running }) k (ground arith))
        λ (x, y) q. ((q.0.0, ground arith), q.1)
