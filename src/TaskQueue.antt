-- ===== src/TaskQueue.antt =====
-- The queue of sub-agent tasks: backend/core/task_queue*.py over the table of
-- backend/storage/sub_agent_task_store.py and a Redis server.
pub mod Payload
pub mod Store
pub mod Queue
