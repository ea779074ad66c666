-- ===== src/WorkerRepository/Liveness.antt =====
-- Heartbeats and lost workers.
use backend_task_orchestrati.Prelude.{
  ℕ, ◌+◌, ◌≤◌, ◌≡◌, refl, false, [], ◌∷◌, arith, Bool-cases, inl, inr,
}
use backend_task_orchestrati.Prelude.Eq.{◌==◌, string_eq, elem}
use backend_task_orchestrati.Models.Worker.{WorkerNode, WorkerHeartbeatDto, worker_status_eq}
use backend_task_orchestrati.WorkerRepository.{
  Workers, beat, heartbeat, is_silent, marked_lost, mark_lost_workers,
}

beat_heard :
    (sent now timeout : ℕ) (dto : WorkerHeartbeatDto) (w : WorkerNode)
    → now ≤ dto.timestamp + timeout
    → is_silent now timeout (beat sent dto w) ≡ false
unfolding is_silent
beat_heard sent now timeout dto w soon = ground arith

-- A worker that sent a heartbeat no longer ago than the timeout is not reported as lost.
pub heartbeat_keeps :
    (sent now timeout : ℕ) (dto : WorkerHeartbeatDto) (workers : Workers)
    → now ≤ dto.timestamp + timeout
    → elem dto.worker_id (mark_lost_workers now timeout (heartbeat sent dto workers)).0 ≡ false
unfolding heartbeat mark_lost_workers elem
heartbeat_keeps sent now timeout dto [] soon = refl
heartbeat_keeps sent now timeout dto (w ∷ workers) soon =
    let rest = heartbeat_keeps sent now timeout dto workers soon in
    elim (Bool-cases (w.id == dto.worker_id)) [
      | inl here ↦ rw (here, beat_heard sent now timeout dto w soon) rest
      | inr other ↦ rw other (elim (Bool-cases (is_silent now timeout w)) [
        | inl silent ↦ rw (silent, other) rest
        | inr heard ↦ rw heard rest
      ])
    ]

marked_lost_quiet :
    (now later timeout : ℕ) (w : WorkerNode) → is_silent later timeout (marked_lost now w) ≡ false
unfolding is_silent elem
marked_lost_quiet now later timeout w = refl

-- A second sweep with the same clock reports no worker: each lost worker is reported once.
pub mark_lost_once :
    (now timeout : ℕ) (workers : Workers)
    → (mark_lost_workers now timeout (mark_lost_workers now timeout workers).1).0 ≡ []
unfolding mark_lost_workers
mark_lost_once now timeout [] = refl
mark_lost_once now timeout (w ∷ workers) = elim (Bool-cases (is_silent now timeout w)) [
  | inl silent ↦
      rw (silent, marked_lost_quiet now now timeout w) (mark_lost_once now timeout workers)
  | inr heard ↦ rw (heard, heard) (mark_lost_once now timeout workers)
]
