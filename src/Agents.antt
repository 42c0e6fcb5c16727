-- ===== src/Agents.antt =====
-- The turn of one agent: src/bestteam/core/grounding.py, and `_run_agent` of
-- src/bestteam/adapters/langgraph_adapter.py.
pub mod Grounding
pub mod Turn
mod Examples
