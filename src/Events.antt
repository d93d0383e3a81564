-- ===== src/Events.antt =====
-- src/util/isz_list.h and src/isz_listeners.c: the intrusive list, and the listeners of a server.
pub mod IntrusiveList
pub mod Listeners
