-- ===== src/OrderBook.antt =====
-- src/models/include/OrderBook.h and src/models/impl/OrderBook.cpp: the matching engine.
pub mod Levels
pub mod Matching
pub mod Engine
pub mod Abstract
pub mod Queries
pub mod Exchange
