-- ===== src/Celery.antt =====
-- autoweave/celery_queue.py: workflow actions on a message broker.
pub mod Queue
mod Examples
