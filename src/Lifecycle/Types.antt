-- ===== src/Lifecycle/Types.antt =====
-- The state of the lifecycle manager (internal/lifecycle/lifecycle.go). Model names are numbered;
-- times are nanoseconds, sizes MiB. The list of instances is the order in which Go ranges over its
-- map, which may be any; a pointer to an instance that such a loop keeps is an index into it.
use audio_server.Common.{
  ℕ, ◌==◌, ◌&&◌, if◌then◌else◌, Bool, false, Option, none, some, List, [], ◌∷◌,
}

abbrev pub Name : Type 0
Name = ℕ

-- `running` says that `cmd` is set: from the launch to the stop, also if the process ends by itself
-- in between. The command line and the health URL are only passed on. A timeout of 0 is none.
pub record Instance : Type 0 where
  pub name : Name
  pub idle_timeout : ℕ
  pub vram_mib : ℕ
  pub watcher_started : Bool
  pub running : Bool
  pub last_used : ℕ
  pub active : ℕ
  -- whether the channel `stopCh` is closed
  pub stop_closed : Bool

pub data Error : Type 0 where
  unknown_instance over_limit insufficient_room start_failed : Error

-- `has_meter` says that usedVRAMFunc is set; `exec_holder` is the caller of Acquire that holds
-- `execMu`, by the model it acquired.
pub record Manager : Type 0 where
  pub instances : List Instance
  pub max_vram_mib : ℕ
  pub has_meter : Bool
  pub exec_holder : Option Name
  pub panicked : Bool

-- The instance registered under a name, and its change.
unfoldable pub lookup : Name → List Instance → Option Instance
lookup n [] = none
lookup n (i ∷ is) = if i.name == n then some i else lookup n is

unfoldable pub modify : Name → (Instance → Instance) → List Instance → List Instance
modify n f [] = []
modify n f (i ∷ is) = let rest = modify n f is in if i.name == n then f i ∷ is else i ∷ rest

abbrev pub new_instance : Name → ℕ → ℕ → Instance
new_instance n idle_timeout vram_mib = record {
  name = n;
  idle_timeout = idle_timeout;
  vram_mib = vram_mib;
  watcher_started = false;
  running = false;
  last_used = 0;
  active = 0;
  stop_closed = false;
}

-- RegisterCommandModel replaces the entry of the name, if there is one.
unfoldable pub register : Name → ℕ → ℕ → List Instance → List Instance
register n idle_timeout vram_mib [] = new_instance n idle_timeout vram_mib ∷ []
register n idle_timeout vram_mib (i ∷ is) =
    let rest = register n idle_timeout vram_mib is in
    if i.name == n then new_instance n idle_timeout vram_mib ∷ is else i ∷ rest

unfoldable pub new_manager : ℕ → Bool → Manager
new_manager max_vram_mib has_meter = record {
  instances = [];
  max_vram_mib = max_vram_mib;
  has_meter = has_meter;
  exec_holder = none;
  panicked = false;
}

-- stopLocked: the process is signalled and waited for.
abbrev pub stop : Instance → Instance
stop i = record i { running = false }

abbrev pub is_evictable : Instance → Bool
is_evictable i = i.running && (i.active == 0)

-- NewManager followed by calls of RegisterCommandModel, each with a name, a timeout and a size.
unfoldable pub register_all : List (Name × ℕ × ℕ) → List Instance → List Instance
unfolding register
register_all [] is = is
register_all ((n, idle_timeout, vram_mib) ∷ ms) is =
    register_all ms (register n idle_timeout vram_mib is)

unfoldable pub configured : ℕ → Bool → List (Name × ℕ × ℕ) → Manager
unfolding new_manager register_all
configured max_vram_mib has_meter ms = record (new_manager max_vram_mib has_meter) {
  instances = register_all ms [];
}
