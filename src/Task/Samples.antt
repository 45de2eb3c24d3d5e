-- ===== src/Task/Samples.antt =====
-- A kernel with the idle task in page 1, the descriptors in page 0, and page 2 free or in use.
use fun_size_os.Base.{
  ℕ, zero, suc, ◌+◌, ◌≤◌, ◌<◌, ◌≡◌, ◌≢◌, inl, inr, refl, arith, true, List, [], ◌∷◌, get_or,
}
use fun_size_os.Memory.{Memory, store8, load16, load32}
use fun_size_os.CString.{IsString}
use fun_size_os.Pages.{valid_memory_from}
use fun_size_os.Pages.Table.{marks}
use fun_size_os.Pages.Inv.{IsReady, table}
use fun_size_os.Heap.{bucket_dir, find_bucket, find_space}
use fun_size_os.Heap.Grow.{CanGrow}
use fun_size_os.Sched.{
  null, nr_tasks, task_at, is_ready, find_ready_task, find_ready_loop, at_state,
}
use fun_size_os.Sched.Table.{FirstEmpty}
use fun_size_os.Task.{Kernel, heap_of}
use fun_size_os.Task.Life.{Spares, CanCreate}
use fun_size_os.Task.Run.{IsIdle}

-- "t1" at 0x5000.
abbrev pub with_name : Memory
with_name = store8 (store8 (λ _. 0) 0x5000 b't') 0x5001 b'1'

abbrev pub with_two : Memory
with_two = store8 (store8 with_name 0x1_0000 1) 0x1_0001 1

abbrev pub with_three : Memory
with_three = store8 with_two 0x1_0002 1

abbrev pub free_entries : ℕ → List ℕ
free_entries zero = []
free_entries (suc n) = null ∷ free_entries n

abbrev pub kernel : Memory → ℕ → Kernel
kernel m used = record {
  sched = record {
    machine = record { memory = m; ports = []; log = []; interrupts = true };
    tasks = 0x10_1000 ∷ free_entries 63;
    current = 0x10_1000;
    cpu_ticks = 0;
    dispatched = [];
  };
  physics_memory = record {
    addr_start = valid_memory_from;
    addr_end = 0x10_3000;
    valid_mem_size = 0x3000;
    pages_total = 3;
    pages_free = 3;
    pages_used = 0;
  };
  physics_memory_map = record {
    addr_base = valid_memory_from;
    pages_total = 3;
    bitmap_item_used = used;
    map = table;
  };
  bucket_dir = bucket_dir;
  free_bucket_desc = 0x10_0000;
}

abbrev pub kernel2 : Kernel
kernel2 = kernel with_two 2

abbrev pub kernel3 : Kernel
kernel3 = kernel with_three 3

pub two-Flags : (i : ℕ) → i < 3 → with_two (table + i) ≤ 1
unfolding store8
two-Flags i h = ground arith

pub three-Flags : (i : ℕ) → i < 3 → with_three (table + i) ≤ 1
unfolding store8
three-Flags i h = ground arith

pub kernel2-IsReady : IsReady (heap_of kernel2).pages
unfolding marks store8
kernel2-IsReady = record {
  start = refl;
  base = refl;
  map_at = refl;
  room = omega arith;
  end_small = omega arith;
  flags = two-Flags;
  counted = refl;
}

pub kernel3-IsReady : IsReady (heap_of kernel3).pages
unfolding marks store8
kernel3-IsReady = record {
  start = refl;
  base = refl;
  map_at = refl;
  room = omega arith;
  end_small = omega arith;
  flags = three-Flags;
  counted = refl;
}

pub first_taken : (j : ℕ) → 0 ≤ j → j < 1 → task_at j (0x10_1000 ∷ free_entries 63) ≢ null
first_taken zero p q = omega arith
first_taken (suc j) p q = absurd (omega arith)

pub slot_one : FirstEmpty (0x10_1000 ∷ free_entries 63) 0 nr_tasks 1
slot_one = record { lower = omega arith; upper = omega arith; empty = refl; earlier = first_taken }

pub name-IsString2 : IsString with_two 0x5000 0x5002
unfolding store8
name-IsString2 = record { starts = omega arith; full = λ a p q. ground arith; ended = refl }

pub name-IsString3 : IsString with_three 0x5000 0x5002
unfolding store8
name-IsString3 = record { starts = omega arith; full = λ a p q. ground arith; ended = refl }

pub kernel2-CanGrow : CanGrow 3 (heap_of kernel2) (find_bucket 4096 kernel2.bucket_dir) 2
unfolding find_bucket find_space load32 load16 store8
kernel2-CanGrow = record {
  ready = kernel2-IsReady;
  no_space = refl;
  large = omega arith;
  small = omega arith;
  chain_word = omega arith;
  next_word = omega arith;
  place = record {
    flag_low = omega arith;
    desc_high = omega arith;
    page_high = omega arith;
    desc_end = omega arith;
    page_end = omega arith;
    apart = inl (omega arith);
  };
  first = record {
    lower = omega arith;
    upper = omega arith;
    free = refl;
    taken = λ j p q. absurd (omega arith);
  };
}

pub kernel2-CanCreate : CanCreate 3 0x5000 0x5002 1 2 kernel2
kernel2-CanCreate = record {
  grow = kernel2-CanGrow;
  slot = slot_one;
  string = name-IsString2;
  short = omega arith;
  rounds = omega arith;
  name_away = record {
    not_flag = inr (omega arith);
    not_desc = inl (omega arith);
    not_page = inl (omega arith);
  };
  current_away = record {
    not_flag = inl (omega arith);
    not_desc = inr (omega arith);
    not_page = inl (omega arith);
  };
}

pub free_entries-null : (n i : ℕ) → get_or (free_entries n) i null ≡ 0
free_entries-null zero i = refl
free_entries-null (suc n) zero = refl
free_entries-null (suc n) (suc i) = free_entries-null n i

pub kernel2-IsIdle : IsIdle 2 kernel2
unfolding find_ready_task find_ready_loop is_ready load32 load16 store8
kernel2-IsIdle = record { entries = refl; none_ready = refl; away = away }
  where
    away :
        (m : ℕ)
        → m < nr_tasks
        → task_at m kernel2.sched.tasks ≢ null
        → Spares
            (table + 2)
            0x10_0000
            0x10_2000
            (task_at m kernel2.sched.tasks + at_state)
            (task_at m kernel2.sched.tasks + at_state + 4)
    away zero h full = record {
      not_flag = inl (omega arith);
      not_desc = inr (omega arith);
      not_page = inl (omega arith);
    }
    away (suc m) h full = absurd (full (free_entries-null 63 m))
