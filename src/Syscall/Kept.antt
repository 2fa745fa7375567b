-- ===== src/Syscall/Kept.antt =====
-- What the parts of a system call leave alone, kernel/syscalls/syscall.cpp.
use tetra_os.Base.{
  ℕ, ◌+◌, ◌^◌, ◌≤◌, ◌<◌, ◌≡◌, refl, sym, ap, subst, ◌∙◌, Option, none, some, List, [], ◌++◌,
  append_assoc, append_nil, arith,
}
use tetra_os.Memory.{Bytes}
use tetra_os.Kernel.{virtual_offset}
use tetra_os.Heap.Invariant.{IsHeap}
use tetra_os.Print.{Arg, vprintf}
use tetra_os.Loader.Write.{user-IsHeap}
use tetra_os.Syscall.{Machine, put_chars, set_mem, printf, and_then}

-- From one state to a later one: the heap of the kernel is one, its blocks that were there are as
-- they were, and what was put stays.
pub record IsServed (limit base : ℕ) (s s' : Machine) : Type 0 where
  pub heap : IsHeap s'.kernel limit base
  pub grows : s.kernel.free_list ≤ s'.kernel.free_list
  pub blocks :
      (b : ℕ)
      → virtual_offset + 2 ^ 32 ≤ b
      → b < s.kernel.free_list
      → s'.kernel.mem b ≡ s.kernel.mem b
  pub text : List ℕ
  pub put : s'.output ≡ s.output ++ text

pub IsServed-trans :
    (limit base : ℕ) (s t u : Machine)
    → IsServed limit base s t
    → IsServed limit base t u
    → IsServed limit base s u
IsServed-trans limit base s t u a b = record {
  heap = b.heap;
  grows = omega (arith, a.grows, b.grows);
  blocks = λ x high below. b.blocks x high (omega (arith, a.grows)) ∙ a.blocks x high below;
  text = a.text ++ b.text;
  put = b.put ∙ ap (λ (r : List ℕ). r ++ b.text) a.put ∙ append_assoc s.output a.text b.text;
}

module _ (limit base : ℕ) (s : Machine) (v : IsHeap s.kernel limit base) where
  pub put-IsServed : (cs : List ℕ) → IsServed limit base s (put_chars cs s)
  put-IsServed cs = record {
    heap = v;
    grows = omega arith;
    blocks = λ b high below. refl;
    text = cs;
    put = refl;
  }

  -- A change of other parts than the kernel's memory and the output.
  pub aside-IsServed :
      (input : List ℕ) (next : ℕ)
      → IsServed limit base s (record s { input = input; next_descriptor = next })
  aside-IsServed input next = record {
    heap = v;
    grows = omega arith;
    blocks = λ b high below. refl;
    text = [];
    put = sym (append_nil s.output);
  }

  -- A change of the memory of the process.
  pub user-IsServed :
      (m : Bytes)
      → ((b : ℕ) → virtual_offset ≤ b → m b ≡ s.kernel.mem b)
      → IsServed limit base s (set_mem m s)
  user-IsServed m same = record {
    heap = user-IsHeap s.kernel limit base v m same;
    grows = omega arith;
    blocks = λ b high below. same b (omega arith);
    text = [];
    put = sym (append_nil s.output);
  }

  printed :
      (o : Option (List ℕ)) (s' : Machine)
      → elim o [ none ↦ none | some chars ↦ some (put_chars chars s) ] ≡ some s'
      → (cs : List ℕ) × (put_chars cs s ≡ s')
  printed none s' e = cc
  printed (some cs) s' e = (cs, cc)

  pub printf-IsServed :
      (fmt : List ℕ) (args : List Arg) (s' : Machine)
      → printf fmt args s ≡ some s'
      → IsServed limit base s s'
  unfolding printf
  printf-IsServed fmt args s' e =
      let (cs, same) = printed (vprintf fmt args) s' e in
      subst (IsServed limit base s) same (put-IsServed cs)

pub and_then-some :
    (o : Option Machine) (next : Machine → Option Machine) (s' : Machine)
    → and_then o next ≡ some s'
    → (s1 : Machine) × (o ≡ some s1) × (next s1 ≡ some s')
and_then-some none next s' e = cc
and_then-some (some s1) next s' e = (s1, refl, e)

-- Calls one after another.
pub and_then-IsServed :
    (limit base : ℕ) (s s' : Machine) (o : Option Machine) (next : Machine → Option Machine)
    → and_then o next ≡ some s'
    → ((s1 : Machine) → o ≡ some s1 → IsServed limit base s s1)
    → ((s1 : Machine) → IsHeap s1.kernel limit base → next s1 ≡ some s' → IsServed limit base s1 s')
    → IsServed limit base s s'
and_then-IsServed limit base s s' o next e first second =
    let (s1, e1, e2) = and_then-some o next s' e in
    let a = first s1 e1 in IsServed-trans limit base s s1 s' a (second s1 a.heap e2)
