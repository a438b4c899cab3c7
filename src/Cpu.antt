-- ===== src/Cpu.antt =====
-- hardware/cpu.c: the handlers of interrupts and the timer, as the host keeps them, and
-- `time_init` of kernel/time.c. The range of the host's real-time signals is an argument. What the
-- host refuses aborts and is not modelled; the masks and `pause` are the host's.
use sistemas_operacionais.Base.{ℕ, ◌+◌, ◌*◌, ◌||◌, Option, none, some, ◌==◌, if◌then◌else◌, leb}
use sistemas_operacionais.Base.Int.{ℤ, pos, pos_part, ltb_ℤ}

pub data Status : Type 0 where
  no_error error : Status

-- A POSIX timer: the signal it raises, and nanoseconds to its first expiry and between later ones.
pub record Timer : Type 0 where
  pub signal : ℕ
  pub value : ℕ
  pub interval : ℕ

-- The handler of each signal, by address, and the timer armed last.
pub record Cpu : Type 0 where
  pub handler : ℕ → Option ℕ
  pub timer : Option Timer

-- `IRQ_TIMER`
abbrev pub irq_timer : ℕ
irq_timer = 1

-- `hw_irq_handle`, where the real-time signals are from `first_signal` to `last_signal`.
unfoldable pub irq_handle :
    (first_signal last_signal : ℕ) (irq : ℤ) (handle : ℕ) → Cpu → Status × Cpu
irq_handle first_signal last_signal irq handle c =
    let signal : ℕ = pos_part irq + first_signal in
    if ltb_ℤ irq (pos 1)
    then (error, c)
    else if leb last_signal signal
    then (error, c)
    else if handle == 0
    then (error, c)
    else (no_error, record c { handler = λ s. if s == signal then some handle else c.handler s })

-- `hw_timer`: `next` is checked and then not used.
unfoldable pub set_timer : (first_signal : ℕ) (first next : ℤ) → Cpu → Status × Cpu
set_timer first_signal first next c =
    if ltb_ℤ first (pos 0) || ltb_ℤ next (pos 0) then (error, c) else (
      no_error,
      record c {
        timer = some (record {
          signal = irq_timer + first_signal;
          value = pos_part first * 1000000;
          interval = pos_part first * 1000000;
        });
      },
    )

-- `time_init` with the address of `handle_timer_signal`; `none` is its failed assertion.
unfoldable pub time_init : (first_signal last_signal : ℕ) (handle : ℕ) → Cpu → Option Cpu
unfolding irq_handle set_timer
time_init first_signal last_signal handle c =
    let (ignored, c1) = set_timer first_signal (pos 1) (pos 1) c in
    let (status, c2) = irq_handle first_signal last_signal (pos irq_timer) handle c1 in
    elim status [ no_error ↦ some c2 | error ↦ none ]
