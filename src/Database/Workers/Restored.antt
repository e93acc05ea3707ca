-- ===== src/Database/Workers/Restored.antt =====
-- A row of a worker that is read back is the worker that was stored, with its roles in order.
use agentic_gpu_platform.Shared.{
  List, [], arith, array, by, false, insert, is_empty, refl, sorted, ◌∷◌, ◌≡◌, ◌≤◌,
}
use agentic_gpu_platform.Enums.{AgentRole}
use agentic_gpu_platform.Errors.{ok}
use agentic_gpu_platform.Requirements.{GpuSpec, WorkerCapabilities, check_capabilities}
use agentic_gpu_platform.Worker.{Worker}
use agentic_gpu_platform.Database.Codes.{read_role-role_value}
use agentic_gpu_platform.Database.Columns.{
  as_mapping, as_mapping-restored, as_optional-of_optional, dump_items, load_items-dump_items,
}
use agentic_gpu_platform.Database.Workers.{
  IsStorable, WorkerModel, apply_worker, as_memory, as_role, dump_capabilities, dump_gpu, in_order,
  load_capabilities, load_gpu, load_roles, new_worker_row, of_memory, of_role,
  read_worker_status-worker_status_value, sorted_roles, text_position, worker_to_domain,
  worker_to_model,
}

load_roles-dump_items :
    (roles : List AgentRole) → load_roles (array (dump_items of_role roles)) ≡ ok roles
unfolding load_roles
load_roles-dump_items roles =
    load_items-dump_items of_role as_role (λ r. unfold as_role in read_role-role_value r) roles

load_gpu-dump_gpu :
    (g : GpuSpec)
    → 1 ≤ g.tensor_parallel_size
    → as_memory (of_memory g.memory_gb) ≡ ok g.memory_gb
    → load_gpu (dump_gpu g) ≡ ok g
unfolding load_gpu dump_gpu
load_gpu-dump_gpu g h e = rw (as_optional-of_optional g.gpu_type, e) (ground arith)

load_capabilities-dump_capabilities :
    (c : WorkerCapabilities)
    → 1 ≤ c.gpu.tensor_parallel_size
    → as_memory (of_memory c.gpu.memory_gb) ≡ ok c.gpu.memory_gb
    → load_capabilities (dump_capabilities c) ≡ check_capabilities (in_order c)
unfolding load_capabilities dump_capabilities as_mapping in_order
load_capabilities-dump_capabilities c h e =
    rw
      (
        load_roles-dump_items (sorted_roles c.supported_roles),
        as_mapping-restored c.metadata,
        load_gpu-dump_gpu c.gpu h e,
      )
      refl

is_empty-insert :
    (x : AgentRole) (ys : List AgentRole) → is_empty (insert (by text_position) x ys) ≡ false
unfolding insert
is_empty-insert x [] = refl
is_empty-insert x (y ∷ ys) = ground arith

is_empty-sorted_roles : (roles : List AgentRole) → is_empty (sorted_roles roles) ≡ is_empty roles
unfolding sorted_roles sorted
is_empty-sorted_roles [] = refl
is_empty-sorted_roles (x ∷ xs) = is_empty-insert x (sorted (by text_position) xs)

in_order-able :
    (c : WorkerCapabilities)
    → check_capabilities c ≡ ok c
    → check_capabilities (in_order c) ≡ ok (in_order c)
unfolding check_capabilities in_order
in_order-able c able = rw (is_empty-sorted_roles c.supported_roles) (ground arith)

-- A worker that passes its constructors, stored over a row of the same worker and read back, is
-- the worker without its events, with its roles in the order of their texts.
pub worker_to_domain-apply_worker :
    (m : WorkerModel) (w : Worker)
    → m.id ≡ w.id
    → m.registered_at ≡ w.registered_at
    → IsStorable w
    → worker_to_domain (apply_worker m w)
      ≡ ok (record w { capabilities = in_order w.capabilities; events = [] })
unfolding worker_to_domain apply_worker
worker_to_domain-apply_worker m w own at_first v =
    rw
      (
        worker_to_domain,
        v.addressed,
        load_capabilities-dump_capabilities w.capabilities v.parallel v.memory,
        in_order-able w.capabilities v.able,
        read_worker_status-worker_status_value w.status,
        own,
        at_first,
      )
      refl

-- A new row of a worker, read back, is the worker, with its roles in the order of their texts and
-- without the events that were already published.
pub worker_to_domain-worker_to_model :
    (w : Worker)
    → IsStorable w
    → worker_to_domain (worker_to_model w)
      ≡ ok (record w { capabilities = in_order w.capabilities; events = [] })
unfolding worker_to_model
worker_to_domain-worker_to_model w v =
    worker_to_domain-apply_worker (new_worker_row w) w refl refl v
