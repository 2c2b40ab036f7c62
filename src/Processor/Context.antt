-- ===== src/Processor/Context.antt =====
-- The saved registers of a thread, kernel/processor/context.{h,cpp}, and how `handle` of
-- kernel/processor/handlers.cpp and `_syscall_handler` of kernel/processor/syscalls.cpp fill them.
use reaveros_iteration.Common.{ℕ, ◌≡◌, refl}

-- the frame that the entry code of an interrupt pushes
pub record IsrContext : Type 0 where
  pub r15 : ℕ
  pub r14 : ℕ
  pub r13 : ℕ
  pub r12 : ℕ
  pub r11 : ℕ
  pub r10 : ℕ
  pub r9 : ℕ
  pub r8 : ℕ
  pub rbp : ℕ
  pub rdi : ℕ
  pub rsi : ℕ
  pub rdx : ℕ
  pub rcx : ℕ
  pub rbx : ℕ
  pub rax : ℕ
  pub number : ℕ
  pub error : ℕ
  pub rip : ℕ
  pub cs : ℕ
  pub rflags : ℕ
  pub rsp : ℕ
  pub ss : ℕ

-- the frame that the entry code of a system call pushes
pub record SyscallContext : Type 0 where
  pub r15 : ℕ
  pub r14 : ℕ
  pub r13 : ℕ
  pub r12 : ℕ
  pub rflags : ℕ
  pub r10 : ℕ
  pub r9 : ℕ
  pub r8 : ℕ
  pub rbp : ℕ
  pub rdi : ℕ
  pub rsi : ℕ
  pub user_rsp : ℕ
  pub user_rip : ℕ
  pub rbx : ℕ
  pub syscall_number : ℕ

-- `context`
pub record Context : Type 0 where
  pub rax : ℕ
  pub rbx : ℕ
  pub rcx : ℕ
  pub rdx : ℕ
  pub rsi : ℕ
  pub rdi : ℕ
  pub rsp : ℕ
  pub rbp : ℕ
  pub r8 : ℕ
  pub r9 : ℕ
  pub r10 : ℕ
  pub r11 : ℕ
  pub r12 : ℕ
  pub r13 : ℕ
  pub r14 : ℕ
  pub r15 : ℕ
  pub cs : ℕ
  pub ss : ℕ
  pub rip : ℕ
  pub rflags : ℕ

-- `save(isr_context &)`, which writes every field
unfoldable pub save : IsrContext → Context
save ctx = record {
  rax = ctx.rax;
  rbx = ctx.rbx;
  rcx = ctx.rcx;
  rdx = ctx.rdx;
  rsi = ctx.rsi;
  rdi = ctx.rdi;
  rsp = ctx.rsp;
  rbp = ctx.rbp;
  r8 = ctx.r8;
  r9 = ctx.r9;
  r10 = ctx.r10;
  r11 = ctx.r11;
  r12 = ctx.r12;
  r13 = ctx.r13;
  r14 = ctx.r14;
  r15 = ctx.r15;
  cs = ctx.cs;
  ss = ctx.ss;
  rip = ctx.rip;
  rflags = ctx.rflags;
}

unfoldable pub load : Context → IsrContext → IsrContext
load c ctx = record ctx {
  rax = c.rax;
  rbx = c.rbx;
  rcx = c.rcx;
  rdx = c.rdx;
  rsi = c.rsi;
  rdi = c.rdi;
  rsp = c.rsp;
  rbp = c.rbp;
  r8 = c.r8;
  r9 = c.r9;
  r10 = c.r10;
  r11 = c.r11;
  r12 = c.r12;
  r13 = c.r13;
  r14 = c.r14;
  r15 = c.r15;
  cs = c.cs;
  ss = c.ss;
  rip = c.rip;
  rflags = c.rflags;
}

-- `save(syscall_context &)`
unfoldable pub save_syscall : SyscallContext → Context
save_syscall ctx = record {
  rax = ctx.syscall_number;
  rbx = ctx.rbx;
  rcx = 0;
  rdx = 0;
  rsi = ctx.rsi;
  rdi = ctx.rdi;
  rsp = ctx.user_rsp;
  rbp = ctx.rbp;
  r8 = ctx.r8;
  r9 = ctx.r9;
  r10 = ctx.r10;
  r11 = 0;
  r12 = ctx.r12;
  r13 = ctx.r13;
  r14 = ctx.r14;
  r15 = ctx.r15;
  cs = 0x1b;
  ss = 0x23;
  rip = ctx.user_rip;
  rflags = ctx.rflags;
}

unfoldable pub load_syscall : Context → SyscallContext → SyscallContext
load_syscall c ctx = record ctx {
  syscall_number = c.rax;
  rbx = c.rbx;
  rsi = c.rsi;
  rdi = c.rdi;
  user_rsp = c.rsp;
  rbp = c.rbp;
  r8 = c.r8;
  r10 = c.r10;
  r12 = c.r12;
  r13 = c.r13;
  r14 = c.r14;
  r15 = c.r15;
  user_rip = c.rip;
  rflags = c.rflags;
}

-- What is loaded after a save is what was saved, but for the number and the error code, which are
-- those of the later interrupt.
pub load-save :
    (before later : IsrContext)
    → load (save before) later ≡ record before { number = later.number; error = later.error }
unfolding load save
load-save before later = refl

-- The frame of a system call comes back whole, except for r9, which stays as the later thread left it.
pub load_syscall-save_syscall :
    (before later : SyscallContext)
    → load_syscall (save_syscall before) later ≡ record before { r9 = later.r9 }
unfolding load_syscall save_syscall
load_syscall-save_syscall before later = refl
