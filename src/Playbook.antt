-- ===== src/Playbook.antt =====
-- The playbook of an investigation: backend/app/engines/playbook/recommender.py.
pub mod Recommender
pub mod Steps
pub mod Tests
