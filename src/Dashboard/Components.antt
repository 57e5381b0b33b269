-- ===== src/Dashboard/Components.antt =====
-- static/dashboard.js: the components that the script registers with Vue, and the tags that use them in
-- static/vue-components.html and templates/dashboard.html.
pub mod Conformance
use flamenco_manager.Common.{String, Option, none, some, List, [], ◌∷◌}
use flamenco_manager.Common.Component.{
  Component, Use, any, string, boolean, array, object, prop, prop_or,
}

abbrev pub page_header : Component
page_header = record {
  name = "page-header";
  template = "#template_header";
  props = prop "serverinfo" any ∷ [];
  data_names = [];
  computed = [];
  methods = [];
  watch = [];
  hooks = [];
  emits = [];
}

abbrev pub status : Component
status = record {
  name = "status";
  template = "#template_status";
  props =
      prop "serverinfo" any
      ∷ prop "errormsg" any
      ∷ prop "idle_workers" any
      ∷ prop "dynamic_pools" any
      ∷ [];
  data_names = [];
  computed = [];
  methods = "forgetWorker" ∷ [];
  watch = [];
  hooks = [];
  emits = [];
}

abbrev pub dynamic_pool_platforms : Component
dynamic_pool_platforms = record {
  name = "dynamic-pool-platforms";
  template = "#template_dynamic_pool_platform";
  props = prop "dynamic_pool_platform" object ∷ [];
  data_names = [];
  computed = [];
  methods = [];
  watch = [];
  hooks = [];
  emits = [];
}

abbrev pub dynamic_pool_platform : Component
dynamic_pool_platform = record {
  name = "dynamic-pool-platform";
  template = "#template_dynamic_pool_platform";
  props = prop "name" string ∷ prop "pools" object ∷ [];
  data_names = [];
  computed = [];
  methods =
      "currentNodeCount" ∷ "desiredNodeCount" ∷ "nodeCountExplicit" ∷ "onResizeButtonClick" ∷ [];
  watch = [];
  hooks = [];
  emits = [];
}

abbrev pub dynamic_pool_resize : Component
dynamic_pool_resize = record {
  name = "dynamic-pool-resize";
  template = "#template_dynamic_pool_resize";
  props = [];
  data_names =
      "platformName" ∷ "poolID" ∷ "allocationState" ∷ "dedicatedNodes" ∷ "lowPriorityNodes"
      ∷ "isProcessing" ∷ [];
  computed = [];
  methods = "closeModal" ∷ "onShowModal" ∷ "onButtonOK" ∷ [];
  watch = [];
  hooks = [];
  emits = "pool-resize-requested" ∷ [];
}

abbrev pub idle_worker : Component
idle_worker = record {
  name = "idle-worker";
  template = "#template_idle_worker";
  props = prop "worker" object ∷ [];
  data_names = [];
  computed = [];
  methods = [];
  watch = [];
  hooks = [];
  emits = "forget-worker" ∷ [];
}

abbrev pub action_bar : Component
action_bar = record {
  name = "action-bar";
  template = "#template_action_bar";
  props =
      prop "workers" array ∷ prop "selected_worker_ids" array ∷ prop "show_schedule" boolean ∷ [];
  data_names = "selected_action" ∷ "actions" ∷ [];
  computed = [];
  methods = "performWorkerAction" ∷ [];
  watch = [];
  hooks = [];
  emits = "toggle-schedule" ∷ [];
}

abbrev pub action_button : Component
action_button = record {
  name = "action-button";
  template = "#template_action_button";
  props = prop "action_key" string ∷ prop "worker_id" string ∷ [];
  data_names = [];
  computed = "action" ∷ [];
  methods = [];
  watch = [];
  hooks = [];
  emits = "worker-action" ∷ [];
}

abbrev pub worker_table : Component
worker_table = record {
  name = "worker-table";
  template = "#template_worker_table";
  props =
      prop "workers" array
      ∷ prop "selected_worker_ids" array
      ∷ prop "all_workers_selected" boolean
      ∷ prop "server" object
      ∷ [];
  data_names = "show_schedule" ∷ [];
  computed = "has_workers" ∷ [];
  methods = "copySchedule" ∷ [];
  watch = "show_schedule" ∷ [];
  hooks = [];
  emits = "toggle-all-workers-selected" ∷ "worker-selected" ∷ [];
}

abbrev pub worker_tbody : Component
worker_tbody = record {
  name = "worker-tbody";
  template = "#template_worker_tbody";
  props =
      prop "worker" object
      ∷ prop "selected_worker_ids" array
      ∷ prop "show_schedule" boolean
      ∷ prop "server" object
      ∷ [];
  data_names = "show_details" ∷ [];
  computed = [];
  methods = [];
  watch = [];
  hooks = [];
  emits = "worker-selected" ∷ "copy-schedule" ∷ [];
}

abbrev pub worker_row : Component
worker_row = record {
  name = "worker-row";
  template = "#template_worker_row";
  props =
      prop "worker" object
      ∷ prop "selected_worker_ids" array
      ∷ prop "show_schedule" boolean
      ∷ prop "show_details" boolean
      ∷ [];
  data_names = "mode" ∷ "edit_schedule" ∷ [];
  computed =
      "checkbox_id" ∷ "is_checked" ∷ "task_id_text" ∷ "task_log_url" ∷ "task_log_curl_command"
      ∷ "task_server_url" ∷ "last_activity_abs" ∷ "worker_software" ∷ "actions_for_worker" ∷ [];
  methods =
      "current_task_updated" ∷ "last_activity_rel" ∷ "performWorkerAction" ∷ "_cloneActiveSchedule"
      ∷ "scheduleEditMode" ∷ "scheduleEditCancel" ∷ "scheduleSetActive" ∷ "scheduleSave" ∷ [];
  watch = "show_schedule" ∷ [];
  hooks = [];
  emits = "worker-selected" ∷ "copy-schedule" ∷ "toggle-details" ∷ [];
}

abbrev pub blacklist_row : Component
blacklist_row = record {
  name = "blacklist-row";
  template = "#template_blacklist_row";
  props = prop "worker" object ∷ prop "listitem" object ∷ prop "server" object ∷ [];
  data_names = [];
  computed = "job_id_text" ∷ "job_id_url" ∷ [];
  methods = "created" ∷ "forget_blacklist_entry" ∷ [];
  watch = [];
  hooks = [];
  emits = [];
}

abbrev pub bootstrap_modal : Component
bootstrap_modal = record {
  name = "bootstrap-modal";
  template = "#template_bootstrap_modal";
  props =
      prop_or "title" "Modal Title"
      ∷ prop_or "labelOk" "Ok"
      ∷ prop_or "labelCancel" "Cancel"
      ∷ prop "isProcessing" boolean
      ∷ [];
  data_names = [];
  computed = [];
  methods = "onShowModal" ∷ [];
  watch = [];
  hooks = "mounted" ∷ [];
  emits = "show-bs-modal" ∷ "button-ok" ∷ [];
}

-- `vueApp`, which is mounted on the page.
abbrev pub vue_app : Component
vue_app = record {
  name = "";
  template = "#vue_app";
  props = [];
  data_names =
      "errormsg" ∷ "serverinfo" ∷ "idle_workers" ∷ "current_workers" ∷ "selected_worker_ids"
      ∷ "dynamic_pools" ∷ [];
  computed = "all_workers_selected" ∷ [];
  methods =
      "loadWorkersSoon" ∷ "loadWorkersAfterMs" ∷ "loadWorkers" ∷ "onWorkerSelected"
      ∷ "toggleSelectAllWorkers" ∷ "onJWTServerError" ∷ "onJWTManagerError" ∷ [];
  watch = "selected_worker_ids" ∷ [];
  hooks = "created" ∷ [];
  emits = [];
}

abbrev pub components : List Component
components =
    page_header ∷ status ∷ dynamic_pool_platforms ∷ dynamic_pool_platform ∷ dynamic_pool_resize
    ∷ idle_worker ∷ action_bar ∷ action_button ∷ worker_table ∷ worker_tbody ∷ worker_row
    ∷ blacklist_row ∷ bootstrap_modal ∷ vue_app ∷ []

-- The tags of templates/dashboard.html.
abbrev pub page_uses : List Use
page_uses =
    record { inside = ""; component = "page-header"; passed = "serverinfo" ∷ []; listened = [] }
    ∷ record {
      inside = "";
      component = "worker-table";
      passed = "workers" ∷ "server" ∷ "selected_worker_ids" ∷ "all_workers_selected" ∷ [];
      listened = "worker-selected" ∷ "toggle-all-workers-selected" ∷ [];
    }
    ∷ record {
      inside = "";
      component = "status";
      passed = "serverinfo" ∷ "idle_workers" ∷ "errormsg" ∷ "dynamic_pools" ∷ [];
      listened = [];
    }
    ∷ record {
      inside = "";
      component = "dynamic-pool-resize";
      passed = [];
      listened = "pool-resize-requested" ∷ [];
    }
    ∷ []

-- The tags of static/vue-components.html.
abbrev pub template_uses : List Use
template_uses =
    record {
      inside = "status";
      component = "dynamic-pool-platform";
      passed = "name" ∷ "pools" ∷ [];
      listened = [];
    }
    ∷ record {
      inside = "status";
      component = "idle-worker";
      passed = "worker" ∷ [];
      listened = "forget-worker" ∷ [];
    }
    ∷ record {
      inside = "dynamic-pool-resize";
      component = "bootstrap-modal";
      passed = "title" ∷ "labelOk" ∷ "labelCancel" ∷ "isProcessing" ∷ [];
      listened = "show-bs-modal" ∷ "button-ok" ∷ [];
    }
    ∷ record {
      inside = "worker-table";
      component = "action-bar";
      passed = "workers" ∷ "selected_worker_ids" ∷ "show_schedule" ∷ [];
      listened = "toggle-schedule" ∷ [];
    }
    ∷ record {
      inside = "worker-table";
      component = "worker-tbody";
      passed = "worker" ∷ "selected_worker_ids" ∷ "show_schedule" ∷ "server" ∷ [];
      listened = "worker-selected" ∷ "copy-schedule" ∷ [];
    }
    ∷ record {
      inside = "worker-tbody";
      component = "worker-row";
      passed = "worker" ∷ "selected_worker_ids" ∷ "show_schedule" ∷ "show_details" ∷ [];
      listened = "worker-selected" ∷ "copy-schedule" ∷ "toggle-details" ∷ [];
    }
    ∷ record {
      inside = "worker-tbody";
      component = "blacklist-row";
      passed = "worker" ∷ "listitem" ∷ "server" ∷ [];
      listened = [];
    }
    ∷ record {
      inside = "worker-row";
      component = "action-button";
      passed = "action_key" ∷ "worker_id" ∷ [];
      listened = "worker-action" ∷ [];
    }
    ∷ []
